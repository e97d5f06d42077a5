-- ===== src/Cycles/Template.antt =====
-- `tmpl` of runtime/cycles.c, as `build_templates` fills it: each opcode's cycles in order, a letter
-- for a cycle. A table is the list of the assignments that built it, the last first.
use Prim.Native.String.{String}
use ct_recomp.Base.{ℕ, List, [], ◌∷◌, Option, some, none, ◌==◌, if◌then◌else◌, bit_or}

abbrev pub Templates : Type 0
Templates = List (ℕ × String)

unfoldable pub find_template : ℕ → Templates → Option String
find_template op [] = none
find_template op ((o, t) ∷ rows) = if o == op then some t else find_template op rows

-- The addressing columns of the ALU group.
abbrev pub columns : Templates
columns =
    (0x01, "FOdIDDDm")
    ∷ (0x03, "FOIDm")
    ∷ (0x05, "FOdDm")
    ∷ (0x07, "FOdDDDDm")
    ∷ (0x09, "FOp")
    ∷ (0x0D, "FOODm")
    ∷ (0x0F, "FOOODm")
    ∷ (0x11, "FOdDDxDm")
    ∷ (0x12, "FOdDDDm")
    ∷ (0x13, "FOIDDIDm")
    ∷ (0x15, "FOdIDm")
    ∷ (0x17, "FOdDDDDm")
    ∷ (0x19, "FOOxDm")
    ∷ (0x1D, "FOOxDm")
    ∷ (0x1F, "FOOODm")
    ∷ []

column_templates : ℕ → Templates → Templates → Templates
column_templates hi [] t = t
column_templates hi ((lo, s) ∷ cs) t = column_templates hi cs ((bit_or hi lo, s) ∷ t)

alu_templates : List ℕ → Templates → Templates
unfolding column_templates
alu_templates [] t = t
alu_templates (hi ∷ his) t = alu_templates his (column_templates hi columns t)

rmw_templates : List ℕ → Templates → Templates
rmw_templates [] t = t
rmw_templates (op ∷ ops) t = rmw_templates ops (
    (bit_or op 0x1E, "FOOIDmImD")
    ∷ (bit_or op 0x16, "FOdIDmImD")
    ∷ (bit_or op 0x0E, "FOODmImD")
    ∷ (bit_or op 0x06, "FOdDmImD")
    ∷ t)

-- `tmpl[op] = s` for each opcode of a list.
same_templates : String → List ℕ → Templates → Templates
same_templates s [] t = t
same_templates s (op ∷ ops) t = same_templates s ops ((op, s) ∷ t)

-- `two`: an internal cycle after the fetch.
abbrev pub two_ops : List ℕ
two_ops =
    0x0A ∷ 0x2A ∷ 0x4A ∷ 0x6A ∷ 0x1A ∷ 0x3A ∷ 0xE8 ∷ 0xC8 ∷ 0xCA ∷ 0x88 ∷ 0xAA ∷ 0xA8 ∷ 0x8A ∷ 0x98
    ∷ 0x9B ∷ 0xBB ∷ 0xBA ∷ 0x9A ∷ 0x5B ∷ 0x7B ∷ 0x1B ∷ 0x3B ∷ 0x18 ∷ 0x38 ∷ 0x58 ∷ 0x78 ∷ 0xD8
    ∷ 0xF8 ∷ 0xB8 ∷ 0xFB ∷ 0xEA ∷ []

abbrev pub alu_his : List ℕ
alu_his = 0x00 ∷ 0x20 ∷ 0x40 ∷ 0x60 ∷ 0x80 ∷ 0xA0 ∷ 0xC0 ∷ 0xE0 ∷ []

abbrev pub rmw_ops : List ℕ
rmw_ops = 0x00 ∷ 0x20 ∷ 0x40 ∷ 0x60 ∷ 0xE0 ∷ 0xC0 ∷ []

abbrev pub branch_ops : List ℕ
branch_ops = 0x10 ∷ 0x30 ∷ 0x50 ∷ 0x70 ∷ 0x90 ∷ 0xB0 ∷ 0xD0 ∷ 0xF0 ∷ 0x80 ∷ []

-- STA: the assignments after the ALU loop, the last first.
abbrev pub sta_templates : Templates → Templates
sta_templates t = (0x9D, "FOOIDm") ∷ (0x99, "FOOIDm") ∷ (0x91, "FOdDDIDm") ∷ t

-- The assignments between `two` and `br`, the last first.
abbrev pub single_templates : Templates → Templates
single_templates t =
    (0xC2, "FOI")
    ∷ (0xE2, "FOI")
    ∷ (0x62, "FOOIDD")
    ∷ (0xD4, "FOdDDDD")
    ∷ (0xF4, "FOODD")
    ∷ (0x2B, "FIIDD")
    ∷ (0x0B, "FIDD")
    ∷ (0xAB, "FIID")
    ∷ (0x28, "FIID")
    ∷ (0x8B, "FID")
    ∷ (0x4B, "FID")
    ∷ (0x08, "FID")
    ∷ (0xFA, "FIIDw")
    ∷ (0x7A, "FIIDw")
    ∷ (0x68, "FIIDm")
    ∷ (0xDA, "FIDw")
    ∷ (0x5A, "FIDw")
    ∷ (0x48, "FIDm")
    ∷ (0xEB, "FII")
    ∷ (0xEC, "FOODw")
    ∷ (0xCC, "FOODw")
    ∷ (0xE4, "FOdDw")
    ∷ (0xC4, "FOdDw")
    ∷ (0xE0, "FOq")
    ∷ (0xC0, "FOq")
    ∷ (0x9E, "FOOIDm")
    ∷ (0x9C, "FOODm")
    ∷ (0x74, "FOdIDm")
    ∷ (0x64, "FOdDm")
    ∷ (0x96, "FOdIDw")
    ∷ (0x94, "FOdIDw")
    ∷ (0x8E, "FOODw")
    ∷ (0x8C, "FOODw")
    ∷ (0x86, "FOdDw")
    ∷ (0x84, "FOdDw")
    ∷ (0xBE, "FOOxDw")
    ∷ (0xBC, "FOOxDw")
    ∷ (0xB6, "FOdIDw")
    ∷ (0xB4, "FOdIDw")
    ∷ (0xAE, "FOODw")
    ∷ (0xAC, "FOODw")
    ∷ (0xA6, "FOdDw")
    ∷ (0xA4, "FOdDw")
    ∷ (0xA2, "FOq")
    ∷ (0xA0, "FOq")
    ∷ (0x3C, "FOOxDm")
    ∷ (0x34, "FOdIDm")
    ∷ (0x2C, "FOODm")
    ∷ (0x24, "FOdDm")
    ∷ (0x89, "FOp")
    ∷ (0x0C, "FOODmImD")
    ∷ (0x1C, "FOODmImD")
    ∷ (0x04, "FOdDmImD")
    ∷ (0x14, "FOdDmImD")
    ∷ (0x42, "FO")
    ∷ t

-- The assignments after `br`, the last first.
abbrev pub last_templates : Templates → Templates
last_templates t =
    (0xCB, "FII")
    ∷ (0xDB, "FII")
    ∷ (0x54, "FOODDII")
    ∷ (0x44, "FOODDII")
    ∷ (0x40, "FIIDDDn")
    ∷ (0x6B, "FIIDDD")
    ∷ (0x60, "FIIDDI")
    ∷ (0x22, "FOODIODD")
    ∷ (0xFC, "FODDOIDD")
    ∷ (0x20, "FOOIDD")
    ∷ (0xDC, "FOODDD")
    ∷ (0x7C, "FOOIDD")
    ∷ (0x6C, "FOODD")
    ∷ (0x5C, "FOOO")
    ∷ (0x4C, "FOO")
    ∷ (0x82, "FOOI")
    ∷ t

-- `build_templates`.
unfoldable pub build_templates : Templates
unfolding alu_templates rmw_templates same_templates
build_templates = last_templates (
    same_templates "FOb" branch_ops (
      single_templates (
        same_templates "FI" two_ops
          (rmw_templates rmw_ops (sta_templates (alu_templates alu_his []))))))

-- `tmpl[op]`; `none` is the null pointer.
unfoldable pub tmpl : ℕ → Option String
unfolding build_templates find_template
tmpl op = find_template op build_templates
