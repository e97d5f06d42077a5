-- ===== src/Bus/Hooked.antt =====
-- The hook tables that `bus_setup` of runtime/bus.c installs.
use ct_recomp.Base.{
  ℕ, zero, suc, Bool, false, Option, none, some, ◌≡◌, refl, ap, sym, ◌∙◌, ◌+◌, ◌-◌, ◌<◌, ◌≤◌, ◌==◌,
  leb, ltb, leb_of_lt, ltb_of_le, leb_of_le, ltb_of_lt, ==_iff, update_eq, update_ne, ◌≢◌, ◌&&◌,
  ◌||◌, if◌then◌else◌, update, arith, Bool-cases, inl, inr,
}
use mathlib.Core.Path.{subst}
use ct_recomp.Bus.{Bus, ReadHook, WriteHook}
use ct_recomp.Bus.{
  open_bus, math_read, wram_port_read, math_write, wram_port_write, memsel_write, readonly_write,
  unused_write,
}
use ct_recomp.Machine.{M, Machine, Result, done, fatal, ◌>>◌, pure, on_bus}
use ct_recomp.Bus.Setup.{
  set_hook, bus_hook, hook_loop, no_hooks, both, no_write, math_result, setup_hooks,
}

-- The tables as functions of the register.
pub record Tables (rd : ℕ → Option ReadHook) (wr : ℕ → Option WriteHook) (b : Bus) : Type 0 where
  pub reads : (a : ℕ) → 0x2000 ≤ a → b.hw_rd (a - 0x2000) ≡ rd a
  pub writes : (a : ℕ) → 0x2000 ≤ a → b.hw_wr (a - 0x2000) ≡ wr a

-- A run that ends, with these tables.
abbrev pub EndsWith : (ℕ → Option ReadHook) → (ℕ → Option WriteHook) → Result (Unit {0}) → Type 0
EndsWith rd wr (done x w) = Tables rd wr w.bus
EndsWith rd wr (fatal e) = ⊥

-- The registers in a range of `n` from `first` on.
abbrev pub within : ℕ → ℕ → ℕ → Bool
within first n a = leb first a && ltb a (first + n)

abbrev over : {A : Type 0} → ℕ → ℕ → (ℕ → A) → (ℕ → A) → ℕ → A
over first n new old a = if within first n a then new a else old a

record Sets (n reg : ℕ) (rd : ℕ → Option ReadHook) (wr : ℕ → Option WriteHook) : Type 0 where
  run :
      (rd0 : ℕ → Option ReadHook) (wr0 : ℕ → Option WriteHook) (w : Machine)
      → Tables rd0 wr0 w.bus
      → EndsWith (over reg n rd rd0) (over reg n wr wr0) (hook_loop n reg rd wr w)

bus_hook-done :
    (reg : ℕ) (rd : Option ReadHook) (wr : Option WriteHook) (w : Machine)
    → 0x2000 ≤ reg
    → reg < 0x6000
    → bus_hook reg rd wr w ≡ done tt (record w { bus = set_hook reg rd wr w.bus })
unfolding bus_hook on_bus
bus_hook-done reg rd wr w h k = rw (ltb_of_le reg 0x2000 h, leb_of_lt 0x6000 reg k)

-- One register more.
over_step :
    {A : Type 0} (reg n a : ℕ) (new old : ℕ → A)
    → over (suc reg) n new (λ b. if b == reg then new reg else old b) a ≡ over reg (suc n) new old a
over_step reg n a new old = elim (Bool-cases (a == reg)) [
  | inl p ↦
      let e = (==_iff a reg).0 p in
      rw
        (
          p,
          leb_of_lt (suc reg) a (omega arith),
          leb_of_le reg a (omega arith),
          ltb_of_lt a (reg + suc n) (omega arith),
        )
        (ap new (sym e))
  | inr p ↦
      let same : (leb (suc reg) a && ltb a (suc reg + n)) ≡ (leb reg a && ltb a (reg + suc n)) =
        ground arith in
      ap (λ b. if b then new a else (if a == reg then new reg else old a)) same
      ∙ ap (λ b. if leb reg a && ltb a (reg + suc n) then new a else (if b then new reg else old a))
          p
]

apart : (a reg : ℕ) → 0x2000 ≤ reg → 0x2000 ≤ a → (a == reg) ≡ false → a - 0x2000 ≢ reg - 0x2000
apart a reg h k p = ground arith

hook_step :
    {A : Type 0} (reg a : ℕ) (f : ℕ → A) (v : A) (old : A)
    → 0x2000 ≤ reg
    → 0x2000 ≤ a
    → f (a - 0x2000) ≡ old
    → update f (reg - 0x2000) v (a - 0x2000) ≡ (if a == reg then v else old)
hook_step reg a f v old h k e = elim (Bool-cases (a == reg)) [
  | inl p ↦ rw p (update_eq f (reg - 0x2000) (a - 0x2000) v (omega (arith, (==_iff a reg).0 p)))
  | inr p ↦ rw p (update_ne f (reg - 0x2000) (a - 0x2000) v (apart a reg h k p) ∙ e)
]

-- The tables change with those that they are over.
over_nil : {A : Type 0} (reg a : ℕ) (new old : ℕ → A) → over reg 0 new old a ≡ old a
over_nil reg a new old = let off : (leb reg a && ltb a (reg + 0)) ≡ false = ground arith in rw off

tables_ext :
    (rd rd' : ℕ → Option ReadHook) (wr wr' : ℕ → Option WriteHook) (r : Result (Unit {0}))
    → ((a : ℕ) → rd a ≡ rd' a)
    → ((a : ℕ) → wr a ≡ wr' a)
    → EndsWith rd wr r
    → EndsWith rd' wr' r
tables_ext rd rd' wr wr' (done x w) e f h = record {
  reads = λ a k. h.reads a k ∙ e a;
  writes = λ a k. h.writes a k ∙ f a;
}
tables_ext rd rd' wr wr' (fatal x) e f h = h

then_run : (m k : M (Unit {0})) (w w' : Machine) → m w ≡ done tt w' → (m >> k) w ≡ k w'
unfolding ◌>>◌
then_run m k w w' h = rw (◌>>◌, h)

hook_loop-Sets :
    (n reg : ℕ) (rd : ℕ → Option ReadHook) (wr : ℕ → Option WriteHook)
    → 0x2000 ≤ reg
    → reg + n ≤ 0x6000
    → Sets n reg rd wr
unfolding hook_loop pure
hook_loop-Sets zero reg rd wr h k = record {
  run = λ rd0 wr0 w t. record {
    reads = λ a p. t.reads a p ∙ sym (over_nil reg a rd rd0);
    writes = λ a p. t.writes a p ∙ sym (over_nil reg a wr wr0);
  };
}
hook_loop-Sets (suc n) reg rd wr h k = record {
  run = λ rd0 wr0 w t.
      let w' = record w { bus = set_hook reg (rd reg) (wr reg) w.bus } in
      let rd1 : ℕ → Option ReadHook = λ b. if b == reg then rd reg else rd0 b in
      let wr1 : ℕ → Option WriteHook = λ b. if b == reg then wr reg else wr0 b in
      subst (EndsWith (over reg (suc n) rd rd0) (over reg (suc n) wr wr0))
        (sym (
          then_run (bus_hook reg (rd reg) (wr reg)) (hook_loop n (suc reg) rd wr) w w'
            (bus_hook-done reg (rd reg) (wr reg) w h (omega arith))))
        (tables_ext _ _ _ _ (hook_loop n (suc reg) rd wr w') (λ a. over_step reg n a rd rd0)
          (λ a. over_step reg n a wr wr0)
          ((hook_loop-Sets n (suc reg) rd wr (omega arith) (omega arith)).run rd1 wr1 w' (record {
            reads = λ a p. hook_step reg a w.bus.hw_rd (rd reg) (rd0 a) h p (t.reads a p);
            writes = λ a p. hook_step reg a w.bus.hw_wr (wr reg) (wr0 a) h p (t.writes a p);
          })));
}

-- The next loop of `bus_setup`.
next_result :
    (rd0 : ℕ → Option ReadHook) (wr0 : ℕ → Option WriteHook) (n reg : ℕ) (rd : ℕ → Option ReadHook)
    (wr : ℕ → Option WriteHook) (r : Result (Unit {0}))
    → Sets n reg rd wr
    → EndsWith rd0 wr0 r
    → EndsWith
        (over reg n rd rd0)
        (over reg n wr wr0)
        (elim r [ done x w ↦ hook_loop n reg rd wr w | fatal e ↦ fatal e ])
next_result rd0 wr0 n reg rd wr (done x w) s t = s.run rd0 wr0 w t
next_result rd0 wr0 n reg rd wr (fatal e) s t = t

record Runs (rd : ℕ → Option ReadHook) (wr : ℕ → Option WriteHook) (m : M (Unit {0})) : Type 0 where
  run : (w : Machine) → EndsWith rd wr (m w)

next_loop :
    {rd0 : ℕ → Option ReadHook} {wr0 : ℕ → Option WriteHook} {m : M (Unit {0})} (n reg : ℕ)
    (rd : ℕ → Option ReadHook) (wr : ℕ → Option WriteHook)
    → 0x2000 ≤ reg
    → reg + n ≤ 0x6000
    → Runs rd0 wr0 m
    → Runs (over reg n rd rd0) (over reg n wr wr0) (m >> hook_loop n reg rd wr)
unfolding ◌>>◌
next_loop {rd0} {wr0} {m} n reg rd wr h k r = record {
  run = λ w. next_result rd0 wr0 n reg rd wr (m w) (hook_loop-Sets n reg rd wr h k) (r.run w);
}

empty-Runs : Runs (λ a. none) (λ a. none) (on_bus no_hooks)
unfolding on_bus no_hooks
empty-Runs = record { run = λ w. record { reads = λ a h. refl; writes = λ a h. refl } }

-- The tables by the ranges of the registers.
unfoldable pub setup_reads : ℕ → Option ReadHook
setup_reads a =
    if a == 0x2180
    then some wram_port_read
    else if within 0x4214 4 a
    then some math_read
    else if within 0x4210 16 a
    then none
    else if within 0x2181 127 a
        || within 0x4200 11 a
        || within 0x420D 3 a
        || within 0x4220 224 a
        || within 0x4380 128 a
    then some open_bus
    else none

unfoldable pub setup_writes : ℕ → Option WriteHook
setup_writes a =
    if within 0x2180 4 a
    then some wram_port_write
    else if within 0x4202 5 a
    then some math_write
    else if a == 0x420D
    then some memsel_write
    else if within 0x4210 16 a
    then some readonly_write
    else if within 0x2184 124 a || within 0x420E 2 a || within 0x4220 224 a || within 0x4380 128 a
    then some unused_write
    else none

abbrev read_loops : ℕ → Option ReadHook
read_loops = over 0x4207 4 (both open_bus) (
    over 0x4200 2 (both open_bus) (
      over 0x420D 1 (both open_bus) (
        over 0x4380 128 (both open_bus) (
          over 0x4220 224 (both open_bus) (
            over 0x420F 1 (both open_bus) (
              over 0x420E 1 (both open_bus) (
                over 0x2184 124 (both open_bus) (
                  over 0x2181 3 (both open_bus) (
                    over 0x2180 1 (both wram_port_read) (
                      over 0x4210 16 math_result
                        (over 0x4202 5 (both open_bus) (λ a. none))))))))))))

abbrev write_loops : ℕ → Option WriteHook
write_loops = over 0x4207 4 no_write (
    over 0x4200 2 no_write (
      over 0x420D 1 (both memsel_write) (
        over 0x4380 128 (both unused_write) (
          over 0x4220 224 (both unused_write) (
            over 0x420F 1 (both unused_write) (
              over 0x420E 1 (both unused_write) (
                over 0x2184 124 (both unused_write) (
                  over 0x2181 3 (both wram_port_write) (
                    over 0x2180 1 (both wram_port_write) (
                      over 0x4210 16 (both readonly_write)
                        (over 0x4202 5 (both math_write) (λ a. none))))))))))))

loops-Runs : Runs read_loops write_loops setup_hooks
unfolding setup_hooks
loops-Runs = next_loop 4 0x4207 (both open_bus) no_write (omega arith) (omega arith) (
    next_loop 2 0x4200 (both open_bus) no_write (omega arith) (omega arith) (
      next_loop 1 0x420D (both open_bus) (both memsel_write) (omega arith) (omega arith) (
        next_loop 128 0x4380 (both open_bus) (both unused_write) (omega arith) (omega arith) (
          next_loop 224 0x4220 (both open_bus) (both unused_write) (omega arith) (omega arith) (
            next_loop 1 0x420F (both open_bus) (both unused_write) (omega arith) (omega arith) (
              next_loop 1 0x420E (both open_bus) (both unused_write) (omega arith) (omega arith) (
                next_loop 124 0x2184 (both open_bus) (both unused_write) (omega arith) (omega arith)
                  (next_loop 3 0x2181 (both open_bus) (both wram_port_write) (omega arith)
                    (omega arith)
                    (next_loop 1 0x2180 (both wram_port_read) (both wram_port_write) (omega arith)
                      (omega arith)
                      (next_loop 16 0x4210 math_result (both readonly_write) (omega arith)
                        (omega arith)
                        (next_loop 5 0x4202 (both open_bus) (both math_write) (omega arith)
                          (omega arith) empty-Runs)))))))))))

read_loops-setup_reads : (a : ℕ) → read_loops a ≡ setup_reads a
unfolding setup_reads
read_loops-setup_reads a = ground arith

write_loops-setup_writes : (a : ℕ) → write_loops a ≡ setup_writes a
unfolding setup_writes
write_loops-setup_writes a = ground arith

-- The hooks that bus_setup installs before those of the devices never reach the ct_fatal of
-- bus_hook, and they are the table by ranges of registers: the WRAM port, the multiply/divide
-- unit, MEMSEL, the read-only registers, the unused ones, and nothing elsewhere.
pub setup_hooks-Tables : (w : Machine) → EndsWith setup_reads setup_writes (setup_hooks w)
setup_hooks-Tables w =
    tables_ext read_loops setup_reads write_loops setup_writes (setup_hooks w)
      read_loops-setup_reads write_loops-setup_writes (loops-Runs.run w)
