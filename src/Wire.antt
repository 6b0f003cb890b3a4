-- ===== src/Wire.antt =====
-- The byte flipping routines of source/build/metric/pack_generic.c, on the structures of
-- lustre_idl.h. Memory holds the bytes by their address; `__swab16s`, `__swab32s` and `__swab64s`
-- reverse the bytes of a word in place. The receiving machine is little-endian, so a word that a
-- big-endian machine sent is read by `load_be` before and by `load_le` after.
pub mod Fields
pub mod Decide
pub mod Structs
pub mod Body
pub mod Connect
mod Tests
use lustre_tools.Base.{
  ℕ, zero, suc, ◌+◌, ◌-◌, ◌*◌, List, [], ◌∷◌, Bool, true, ◌&&◌, ◌||◌, ltb, leb, if◌then◌else◌,
}

abbrev pub Memory : Type 0
Memory = ℕ → ℕ

-- A word of `w` bytes at `p`, its low byte first, and its high byte first.
unfoldable pub load_le : Memory → ℕ → ℕ → ℕ
load_le mem p zero = 0
load_le mem p (suc w) = mem p + 256 * load_le mem (p + 1) w

unfoldable pub load_be : Memory → ℕ → ℕ → ℕ
load_be mem p zero = 0
load_be mem p (suc w) = load_be mem p w * 256 + mem (p + w)

abbrev pub inside : ℕ → ℕ → ℕ → Bool
inside p w a = leb p a && ltb a (p + w)

-- The bytes of the word at `p` reversed.
unfoldable pub swab_at : ℕ → ℕ → Memory → Memory
swab_at p w mem a = if inside p w a then mem (p + p + w - 1 - a) else mem a

-- A member of a structure, by its offset and its size.
abbrev pub Field : Type 0
Field = ℕ × ℕ

abbrev pub swab16s : ℕ → Field
swab16s offset = (offset, 2)

abbrev pub swab32s : ℕ → Field
swab32s offset = (offset, 4)

abbrev pub swab64s : ℕ → Field
swab64s offset = (offset, 8)

-- The statements of a routine, each on a member of the structure at `b`.
unfoldable pub swabs : List Field → ℕ → Memory → Memory
swabs [] b mem = mem
swabs ((offset, w) ∷ fields) b mem = swabs fields b (swab_at (b + offset) w mem)
