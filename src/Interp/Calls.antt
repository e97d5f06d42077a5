-- ===== src/Interp/Calls.antt =====
-- Extern hooks, jump tables, the shadow call stack and the block move of runtime/interp.c.
use ct_recomp.Base.{ℕ, Bool, false, not, Option, none, some, ◌+◌, ◌*◌}
use ct_recomp.Base.{◌==◌, leb, if◌then◌else◌, ◌&&◌, ◌||◌, bit_and}
use ct_recomp.Base.{u8, u16, sub16, long_addr}
use ct_recomp.Cpu.{Cpu}
use ct_recomp.Base.{List, [], ◌∷◌, length}
use ct_recomp.Machine.{
  Extern, Jumptable, Frame, M, done, fatal, ◌>>=◌, ◌>>◌, pure, ct_fatal, gets, on_cpu, on_ctl, when,
}
use ct_recomp.Machine.{
  extern_kind, extern_failed, table_range, call_depth, rts_from_jsl, rtl_from_jsr, returned_to,
}
use ct_recomp.Memory.{read8, write8}
use ct_recomp.Interp.Access.{fetch8}

-- The search of `extern_hook`: the first entry for the address.
unfoldable pub find_extern : ℕ → List Extern → Option Extern
find_extern addr [] = none
find_extern addr (e ∷ es) = if e.addr == addr then some e else find_extern addr es

unfoldable pub check_kind : ℕ → ℕ → Option Extern → M (Option Extern)
check_kind addr kind none = pure none
check_kind addr kind (some e) =
    if e.kind == kind then pure (some e) else ct_fatal (extern_kind addr)

-- `extern_hook`; system mode takes none.
unfoldable pub extern_hook : ℕ → ℕ → M (Option Extern)
extern_hook addr kind = do
  sys ← gets (λ w. w.ctl.sys)
  externs ← gets (λ w. w.link.externs)
  if sys == 0 then check_kind addr kind (find_extern addr externs) else pure none

-- `hook(c)`.
unfoldable pub run_hook : Extern → M (Unit {0})
run_hook e w = elim (e.hook w.cpu w.bus) [
  | some (c, b) ↦ done tt (record w { cpu = c; bus = b })
  | none ↦ fatal (extern_failed e.addr)
]

-- The bound of the jump table at a site, if it is listed.
unfoldable pub find_table : ℕ → List Jumptable → Option ℕ
find_table at [] = none
find_table at (t ∷ ts) = if t.site == at then some t.count else find_table at ts

-- `(c->X & 1) || c->X >= 2u * count`
unfoldable pub out_of_table : ℕ → Option ℕ → Bool
out_of_table x none = false
out_of_table x (some count) = not (bit_and x 1 == 0) || leb (2 * count) x

unfoldable pub table_index : ℕ → M (Unit {0})
unfolding out_of_table find_table
table_index at = do
  w ← gets (λ w. w)
  when (w.ctl.sys == 0 && out_of_table w.cpu.x (find_table at w.link.jumptables))
      (ct_fatal (table_range at w.cpu.x))

-- The strict mode's record of a call at `at`, which must come back to PB:PC.
unfoldable pub enter_call : ℕ → ℕ → M (Unit {0})
enter_call at is_long = do
  w ← gets (λ w. w)
  when (w.ctl.sys == 0) (do
    when (length w.ctl.shadow == 256) (ct_fatal (call_depth at))
    on_ctl (λ k. record k {
      shadow =
          record { site = at; ret = long_addr w.cpu.pb w.cpu.pc; is_long = is_long } ∷ k.shadow;
    }))

-- The checks of RTS and of RTL against the call that it returns from.
unfoldable pub check_rts : ℕ → Frame → Cpu → M (Unit {0})
check_rts at f c = do
  when (not (f.is_long == 0)) (ct_fatal (rts_from_jsl at))
  when (not (c.pc == u16 f.ret)) (ct_fatal (returned_to f.site c.pc (u16 f.ret)))

unfoldable pub check_rtl : ℕ → Frame → Cpu → M (Unit {0})
check_rtl at f c = do
  when (f.is_long == 0) (ct_fatal (rtl_from_jsr at))
  when (not (long_addr c.pb c.pc == f.ret))
      (ct_fatal (returned_to f.site (long_addr c.pb c.pc) f.ret))

-- The newest call is taken off and checked, if there is one.
unfoldable pub pop_call : (Frame → Cpu → M (Unit {0})) → List Frame → M (Unit {0})
pop_call check [] = pure tt
pop_call check (f ∷ fs) = do
  on_ctl (λ k. record k { shadow = fs })
  c ← gets (λ w. w.cpu)
  check f c

unfoldable pub leave_call : (Frame → Cpu → M (Unit {0})) → M (Unit {0})
leave_call check = do k ← gets (λ w. w.ctl); when (k.sys == 0) (pop_call check k.shadow)

-- The registers after one byte of a block move; `step` is 1 or -1 as a 16-bit addend.
unfoldable pub move_index : ℕ → Cpu → Cpu
move_index step c =
    let c1 = record c { x = u16 (c.x + step); y = u16 (c.y + step) } in
    let c2 = if c1.fx == 0 then c1 else record c1 { x = u8 c1.x; y = u8 c1.y } in
    record c2 { a = sub16 c2.a 1 }

unfoldable pub block_move : ℕ → ℕ → M (Unit {0})
block_move at step = do
  dst ← fetch8
  src ← fetch8
  on_cpu (λ c. record c { db = dst })
  c ← gets (λ w. w.cpu)
  v ← read8 (long_addr src c.x)
  write8 (long_addr dst c.y) v
  on_cpu (move_index step)
  a ← gets (λ w. w.cpu.a)
  when (not (a == 0xFFFF)) (on_cpu (λ c. record c { pc = u16 at }))
