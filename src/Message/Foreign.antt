-- ===== src/Message/Foreign.antt =====
-- lustre_unpack_msg of pack_generic.c on a message from a machine of the other byte order.
use lustre_tools.Base.{
  ℕ, zero, suc, ◌+◌, ◌*◌, ◌^◌, ◌≤◌, ◌<◌, ◌≡◌, refl, sym, ap, ap₂, ◌∙◌, ◌⊎◌, inl, inr, Bool, true,
  false, ◌||◌, ltb, if◌then◌else◌, ℤ, pos, ltb_ℤ, signed32, einval, arith,
}
use mathlib.Core.Path.{fun_ext}
use lustre_tools.Message.{
  Libcfs, IsLibcfs, LustreMsg, lustre_msg_magic_v2, lustre_msg_hdr_size_v2, add_sizes,
  lustre_msg_size_v2,
}
use lustre_tools.Message.Layout.{FitsInt, hdr_size, hdr_size_lem, size_lem}
use lustre_tools.Message.Unpack.{swab32, swab_header, check_lens, lustre_unpack_msg}
use lustre_tools.Message.Checks.{required_len_lem, signed32_self, least_size}
use lustre_tools.Message.Accepted.{from_foreign, turned, checked, read_msg, too_short, unpack_cases}

pub swab32-twice : (w : ℕ) → w < 2 ^ 32 → swab32 (swab32 w) ≡ w
unfolding swab32
swab32-twice w h = omega arith

-- The words are in 32 bits.
pub record IsWords (m : LustreMsg) : Type 0 where
  pub count : m.lm_bufcount < 2 ^ 32
  pub secflvr : m.lm_secflvr < 2 ^ 32
  pub repsize : m.lm_repsize < 2 ^ 32
  pub cksum : m.lm_cksum < 2 ^ 32
  pub flags : m.lm_flags < 2 ^ 32

-- The message as a machine of the other byte order has it: the words of the header, and the lengths
-- of its buffers, in the other order.
unfoldable pub foreign : LustreMsg → LustreMsg
unfolding swab_header
foreign m = record (swab_header m) {
  lm_buflens = λ i. if ltb i m.lm_bufcount then swab32 (m.lm_buflens i) else m.lm_buflens i;
}

turned_foreign :
    (m : LustreMsg)
    → IsWords m
    → m.lm_magic ≡ lustre_msg_magic_v2
    → swab_header (foreign m) ≡ record m { lm_buflens = (foreign m).lm_buflens }
unfolding swab_header foreign
turned_foreign m w magic =
    rw
      (
        swab32-twice m.lm_bufcount w.count,
        swab32-twice m.lm_secflvr w.secflvr,
        swab32-twice m.lm_magic (omega (arith, magic)),
        swab32-twice m.lm_repsize w.repsize,
        swab32-twice m.lm_cksum w.cksum,
        swab32-twice m.lm_flags w.flags,
      )
      refl

-- The loop turns each length once.
turned_lens :
    (l : Libcfs) (lens : ℕ → ℕ) (size count n : ℕ)
    → ((i : ℕ) → i < count → lens i < 2 ^ 32)
    → n ≤ count
    → (i : ℕ)
    → (check_lens l true ((λ i. if ltb i count then swab32 (lens i) else lens i), size) n).0 i
      ≡ (if ltb i n then lens i else if ltb i count then swab32 (lens i) else lens i)
unfolding check_lens
turned_lens l lens size count zero small h i = ground arith
turned_lens l lens size count (suc n) small h i = ground (
  arith,
  turned_lens l lens size count n small (omega arith) i,
  turned_lens l lens size count n small (omega arith) n,
  swab32-twice (lens n) (small n (omega arith)),
)

same_if : (b : Bool) (x y : ℕ) → (if b then x else if b then y else x) ≡ x
same_if b x y = ground arith

last_decides :
    (len : ℤ) (h whole : ℕ)
    → 32 ≤ h
    → h ≤ whole
    → (ltb_ℤ len (pos 12) || ltb_ℤ len (pos 32) || ltb_ℤ len (pos h) || ltb_ℤ len (pos whole))
      ≡ ltb_ℤ len (pos whole)
last_decides len h whole k k' = ground arith

module _ (l : Libcfs) (m : LustreMsg) (w : IsWords m) (fits : FitsInt l m.lm_bufcount m.lm_buflens)
    (magic : m.lm_magic ≡ lustre_msg_magic_v2) where
  is_foreign : from_foreign l (foreign m) ≡ true
  unfolding swab_header swab32 foreign
  is_foreign = rw magic refl

  turned_lem : turned l (foreign m) ≡ record m { lm_buflens = (foreign m).lm_buflens }
  turned_lem = rw is_foreign (turned_foreign m w magic)

  loop_lem :
      checked l (foreign m)
      ≡ check_lens l true
          ((foreign m).lm_buflens, lustre_msg_hdr_size_v2 l m.lm_bufcount)
          m.lm_bufcount
  loop_lem = rw (is_foreign, turned_foreign m w magic) refl

  checked_lens : (checked l (foreign m)).0 ≡ m.lm_buflens
  unfolding foreign
  checked_lens =
      ap (λ r. r.0) loop_lem
      ∙ fun_ext (λ i.
        turned_lens l m.lm_buflens (lustre_msg_hdr_size_v2 l m.lm_bufcount) m.lm_bufcount
          m.lm_bufcount (λ j k. omega (arith, fits.each j k)) (omega arith) i
        ∙ same_if (ltb i m.lm_bufcount) (m.lm_buflens i) (swab32 (m.lm_buflens i)))

  checked_size : (checked l (foreign m)).1 ≡ lustre_msg_size_v2 l m.lm_bufcount m.lm_buflens
  unfolding lustre_msg_size_v2
  checked_size =
      ap (λ r. r.1) loop_lem
      ∙ required_len_lem l true (foreign m).lm_buflens (lustre_msg_hdr_size_v2 l m.lm_bufcount)
          m.lm_bufcount
      ∙ ap (λ f. add_sizes l (lustre_msg_hdr_size_v2 l m.lm_bufcount) f m.lm_bufcount)
          (ap (λ r. r.0) (sym loop_lem) ∙ checked_lens)

  foreign_read : read_msg l (foreign m) ≡ m
  foreign_read =
      ap₂ {A = LustreMsg} {B = ℕ → ℕ} (λ t f. record t { lm_buflens = f }) turned_lem checked_lens

  foreign_short :
      (h : IsLibcfs l) (len : ℤ)
      → too_short l (foreign m) len
        ≡ ltb_ℤ len (pos (lustre_msg_size_v2 l m.lm_bufcount m.lm_buflens))
  foreign_short h len =
      ap₂
        (λ (c s : ℕ).
          ltb_ℤ len (pos 12)
          || ltb_ℤ len (signed32 (lustre_msg_hdr_size_v2 l 0))
          || ltb_ℤ len (signed32 (lustre_msg_hdr_size_v2 l c))
          || ltb_ℤ len (signed32 s))
        (ap (λ t. t.lm_bufcount) turned_lem) checked_size
      ∙ rw
          (
            least_size l h,
            hdr_size_lem l m.lm_bufcount m.lm_buflens fits,
            signed32_self 32 (omega arith),
            signed32_self (hdr_size l m.lm_bufcount) (omega (arith, fits.whole)),
            signed32_self (lustre_msg_size_v2 l m.lm_bufcount m.lm_buflens)
                (omega (arith, fits.whole, size_lem l m.lm_bufcount m.lm_buflens fits)),
          )
          (last_decides len _ _ (omega (arith, h.rounds_up (32 + 4 * m.lm_bufcount) fits.header))
            (omega (arith, size_lem l m.lm_bufcount m.lm_buflens fits)))

-- A message from a machine of the other byte order is read as the same message, and the result
-- is then 1, unless fewer bytes came than its buffers need.
pub unpack_foreign :
    (l : Libcfs) (m : LustreMsg) (len : ℤ)
    → IsLibcfs l
    → IsWords m
    → FitsInt l m.lm_bufcount m.lm_buflens
    → m.lm_magic ≡ lustre_msg_magic_v2
    → (((lustre_unpack_msg l (foreign m) len).1 ≡ einval)
        × (ltb_ℤ len (pos (lustre_msg_size_v2 l m.lm_bufcount m.lm_buflens)) ≡ true))
      ⊎ ((lustre_unpack_msg l (foreign m) len ≡ (m, pos 1))
          × (ltb_ℤ len (pos (lustre_msg_size_v2 l m.lm_bufcount m.lm_buflens)) ≡ false))
unpack_foreign l m len h w fits magic = elim (unpack_cases l (foreign m) len) [
  | inl (t, u) ↦ inl (t, sym (foreign_short l m w fits magic h len) ∙ u)
  | inr (t, u) ↦ inr (
    t ∙ ap₂ (λ x y. (x, y)) (foreign_read l m w fits magic) (rw (is_foreign l m w fits magic) refl),
    sym (foreign_short l m w fits magic h len) ∙ u,
  )
]
