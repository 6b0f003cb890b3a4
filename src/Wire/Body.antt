-- ===== src/Wire/Body.antt =====
-- lustre_swab_ptlrpc_body of source/build/metric/pack_generic.c turns the words of a big-endian machine into those of a little-endian one.
use lustre_tools.Base.{
  ℕ, ◌+◌, ◌≡◌, refl, inl, inr, true, false, List, [], ◌∷◌, map, if◌then◌else◌, Bool-cases, arith,
}
use lustre_tools.Wire.{Memory, load_le, load_be, Field, swabs}
use lustre_tools.Wire.Fields.{
  AllApart, Disjoint, load_le_cong, swabs-elsewhere, swabs-read, swabs-twice,
}
use lustre_tools.Wire.Decide.{one_of, apart_all-AllApart, one_of-IsOneOf, disjoint-Disjoint}
use lustre_tools.Wire.Structs.{
  PtlrpcBody, member, is_word, ptlrpc_body_swabs, lustre_swab_ptlrpc_body, pb_handle, pb_padding0,
  pb_padding1, pb_padding64_0, pb_padding64_1, pb_padding64_2, pb_jobid,
}

body_fields-Disjoint : Disjoint (map member ptlrpc_body_swabs)
body_fields-Disjoint = disjoint-Disjoint (map member ptlrpc_body_swabs) refl

named :
    (x : PtlrpcBody) → is_word x ≡ true → one_of (member x) (map member ptlrpc_body_swabs) ≡ true
named x h = ground arith

body_gaps : List Field
body_gaps = map member (
    pb_handle ∷ pb_padding0 ∷ pb_padding1 ∷ pb_padding64_0 ∷ pb_padding64_1 ∷ pb_padding64_2
    ∷ pb_jobid ∷ [])

in_gap : (x : PtlrpcBody) → is_word x ≡ false → one_of (member x) body_gaps ≡ true
unfolding body_gaps
in_gap x h = ground arith

unnamed : (x : PtlrpcBody) → is_word x ≡ false → AllApart (member x) (map member ptlrpc_body_swabs)
unfolding body_gaps
unnamed x h =
    apart_all-AllApart (member x) body_gaps (map member ptlrpc_body_swabs) refl (in_gap x h)

-- The routine turns every integer of the body from the sender's order to the receiver's, leaves
-- the bytes of the others, and its second run gives back every byte of the memory.
pub swab_ptlrpc_body-orders :
    (b a : ℕ) (mem : Memory) (x : PtlrpcBody)
    → (load_le (lustre_swab_ptlrpc_body b mem) (b + (member x).0) (member x).1 ≡ (
        if is_word x
        then load_be mem (b + (member x).0) (member x).1
        else load_le mem (b + (member x).0) (member x).1))
      × (lustre_swab_ptlrpc_body b (lustre_swab_ptlrpc_body b mem) a ≡ mem a)
unfolding lustre_swab_ptlrpc_body
swab_ptlrpc_body-orders b a mem x = (
  elim (Bool-cases (is_word x)) [
    | inl t ↦ rw t (
        swabs-read (member x) fields b mem body_fields-Disjoint
          (one_of-IsOneOf (member x) fields (named x t)))
    | inr t ↦ rw t (
        load_le_cong (swabs fields b mem) mem (b + (member x).0) (member x).1
          (λ i k. swabs-elsewhere (member x) fields b i mem (unnamed x t) k))
  ],
  swabs-twice fields b a mem body_fields-Disjoint,
)
  where
    fields : List Field
    fields = map member ptlrpc_body_swabs
