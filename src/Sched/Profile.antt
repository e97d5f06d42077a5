-- ===== src/Sched/Profile.antt =====
-- The native coverage profile of runtime/sched.c: the shadow stack of the functions that have not
-- returned, and the table of counts.
use ct_recomp.Base.{
  ℕ, zero, suc, List, [], ◌∷◌, ◌+◌, ◌*◌, ◌^◌, ◌-◌, ◌%◌, ◌==◌, ltb, ◌&&◌, ◌||◌, if◌then◌else◌,
  length, update,
}
use ct_recomp.Base.{bit_or, bit_xor, ◌<<<◌, ◌>>>◌, u32}
use ct_recomp.Cpu.{Cpu}

abbrev pub prof_depth : ℕ
prof_depth = 256

abbrev pub prof_slots : ℕ
prof_slots = 8192

abbrev pub prof_rest : ℕ
prof_rest = 2 ^ 27

-- An entry of `shadow`; the list is the stack, the newest entry first.
pub record Call : Type 0 where
  pub key : ℕ
  pub s0 : ℕ

unfoldable pub entry_key : Cpu → ℕ
entry_key c =
    bit_or
      (bit_or
        (bit_or
          (bit_or (bit_or (bit_or (bit_or (c.pb <<< 16) c.pc) (c.fm <<< 24)) (c.fx <<< 25))
            (c.fe <<< 26))
          (1 <<< 31))
        (c.db <<< 32))
      (c.dp <<< 40)

-- `shadow_settle`, with the stack pointer.
unfoldable pub shadow_settle : ℕ → List Call → List Call
shadow_settle s [] = []
shadow_settle s (e ∷ es) = let rest = shadow_settle s es in if ltb e.s0 s then rest else e ∷ es

-- The first `n` elements.
abbrev pub keep : ℕ → List Call → List Call
keep zero es = []
keep (suc n) [] = []
keep (suc n) (e ∷ es) = e ∷ keep n es

-- `shadow_push_key`: a full stack loses its oldest entry.
unfoldable pub shadow_push_key : ℕ → ℕ → ℕ → List Call → List Call
shadow_push_key s key s0 es =
    let settled = shadow_settle s es in
    let room = if length settled == prof_depth then keep (prof_depth - 1) settled else settled in
    record { key = key; s0 = s0 } ∷ room

unfoldable pub shadow_push : Cpu → List Call → List Call
shadow_push c es = shadow_push_key c.s (entry_key c) c.s es

-- `shadow_rest` on the settled stack.
unfoldable pub rest_on : ℕ → ℕ → ℕ → List Call → List Call
rest_on s key s0 [] = shadow_push_key s key s0 []
rest_on s key s0 (e ∷ es) =
    if (e.key >>> 27) % 2 == 1 && e.s0 == s0
    then record e { key = key } ∷ es
    else shadow_push_key s key s0 (e ∷ es)

unfoldable pub shadow_rest : Cpu → ℕ → List Call → List Call
shadow_rest c s0 es = rest_on c.s (bit_or (entry_key c) prof_rest) s0 (shadow_settle c.s es)

-- An element of `prof`; the array is a function of the index.
pub record Slot : Type 0 where
  pub key : ℕ
  pub count : ℕ

-- The slot where `prof_charge` starts for a key.
unfoldable pub prof_slot : ℕ → ℕ
prof_slot key = u32 (u32 (bit_xor key (key >>> 29)) * 2654435761) % prof_slots

-- The loop of `prof_charge`: `n` slots from `k` on, going round; a full table counts nothing.
unfoldable pub charge_loop : ℕ → ℕ → ℕ → (ℕ → Slot) → ℕ → Slot
charge_loop zero k key prof = prof
charge_loop (suc n) k key prof =
    let next = charge_loop n ((k + 1) % prof_slots) key prof in
    if (prof k).key == key || (prof k).key == 0
    then update prof k (record { key = key; count = (prof k).count + 1 })
    else next

abbrev pub top_key : List Call → ℕ
top_key [] = 2 ^ 31
top_key (e ∷ es) = e.key

-- `prof_charge`: the stack settled, and the table.
unfoldable pub prof_charge : Cpu → List Call → (ℕ → Slot) → List Call × (ℕ → Slot)
prof_charge c es prof =
    let settled = shadow_settle c.s es in
    let key = top_key settled in (settled, charge_loop prof_slots (prof_slot key) key prof)
