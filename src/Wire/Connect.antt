-- ===== src/Wire/Connect.antt =====
-- lustre_swab_connect of source/build/metric/pack_generic.c turns the words of a big-endian machine
-- into those of a little-endian one, the later members by the flags.
use lustre_tools.Base.{
  ℕ, ◌+◌, ◌≤◌, ◌<◌, ◌≡◌, refl, sym, ◌∙◌, ◌⊎◌, inl, inr, true, false, List, [], ◌∷◌, ◌++◌, map,
  if◌then◌else◌, Bool-cases, arith,
}
use lustre_tools.Wire.{Memory, load_le, load_be, swab_at, Field, swabs}
use lustre_tools.Wire.Fields.{Apart, swab_at-outside, load_le_cong, swabs-elsewhere, swabs-read}
use lustre_tools.Wire.Decide.{
  one_of, disjoint, apart_all, apart_all-AllApart, one_of-IsOneOf, disjoint-Disjoint,
}
use lustre_tools.Wire.Structs.{
  ocd_blocksize, ocd_inodespace, ocd_padding0, ocd_padding1, ObdConnectData, ocd_connect_flags,
  ocd_member, connect_swabs, flagged_swabs, has_flag, is_read, swab_flagged, at_member,
  lustre_swab_connect,
}

-- The members whose flags are set.
chosen : ℕ → List (ℕ × Field) → List Field
chosen flags [] = []
chosen flags ((bit, f) ∷ rest) =
    let more = chosen flags rest in if has_flag flags bit then f ∷ more else more

abbrev FlagsApart : List (ℕ × Field) → Type 0
FlagsApart [] = Unit {0}
FlagsApart ((bit, f) ∷ rest) = Apart (0, 8) f × FlagsApart rest

-- A statement on another member leaves the flags as they are read.
flags_kept :
    (f : Field) (b : ℕ) (mem : Memory)
    → Apart (0, 8) f
    → load_le (swab_at (b + f.0) f.1 mem) b 8 ≡ load_le mem b 8
flags_kept f b mem h =
    load_le_cong (swab_at (b + f.0) f.1 mem) mem b 8
      (λ i k. swab_at-outside (b + f.0) f.1 (b + i) mem (side i k h))
  where
    side : (i : ℕ) → i < 8 → Apart (0, 8) f → (b + i < b + f.0) ⊎ (b + f.0 + f.1 ≤ b + i)
    side i k (inl t) = inl (omega arith)
    side i k (inr t) = inr (omega arith)

swab_flagged-chosen :
    (opts : List (ℕ × Field)) (b flags : ℕ) (mem : Memory)
    → FlagsApart opts
    → load_le mem b 8 ≡ flags
    → swab_flagged opts b mem ≡ swabs (chosen flags opts) b mem
unfolding swab_flagged swabs chosen
swab_flagged-chosen [] b flags mem h e = refl
swab_flagged-chosen ((bit, f) ∷ rest) b flags mem (h, hs) e =
    elim (Bool-cases (has_flag flags bit)) [
      | inl t ↦
          rw (e, t)
            (swab_flagged-chosen rest b flags (swab_at (b + f.0) f.1 mem) hs
              (flags_kept f b mem h ∙ e))
      | inr t ↦ rw (e, t) (swab_flagged-chosen rest b flags mem hs e)
    ]

swabs-append :
    (fs gs : List Field) (b : ℕ) (mem : Memory)
    → swabs (fs ++ gs) b mem ≡ swabs gs b (swabs fs b mem)
unfolding swabs
swabs-append [] gs b mem = refl
swabs-append (f ∷ fs) gs b mem = swabs-append fs gs b (swab_at (b + f.0) f.1 mem)

connect_fields : ℕ → List Field
unfolding chosen
connect_fields flags = map ocd_member connect_swabs ++ chosen flags (map at_member flagged_swabs)

-- The flags are swabbed before they are tested.
flags_sent :
    (b : ℕ) (mem : Memory)
    → load_le (swabs (map ocd_member connect_swabs) b mem) b 8 ≡ load_be mem b 8
flags_sent b mem =
    let at_b : b + 0 ≡ b = omega arith in
    rw at_b at (
      swabs-read (ocd_member ocd_connect_flags) (map ocd_member connect_swabs) b mem
        (disjoint-Disjoint (map ocd_member connect_swabs) refl) (inl refl))

flags_alone : FlagsApart (map at_member flagged_swabs)
flags_alone = (inl (omega arith), (inl (omega arith), (inl (omega arith), (inl (omega arith), tt))))

swab_connect_lem :
    (b : ℕ) (mem : Memory)
    → lustre_swab_connect b mem ≡ swabs (connect_fields (load_be mem b 8)) b mem
unfolding lustre_swab_connect connect_fields
swab_connect_lem b mem =
    swab_flagged-chosen (map at_member flagged_swabs) b (load_be mem b 8)
      (swabs (map ocd_member connect_swabs) b mem) flags_alone (flags_sent b mem)
    ∙ sym (
        swabs-append (map ocd_member connect_swabs)
          (chosen (load_be mem b 8) (map at_member flagged_swabs)) b mem)

chosen_named :
    (flags : ℕ) (x : ObdConnectData)
    → is_read flags x ≡ true
    → one_of (ocd_member x) (connect_fields flags) ≡ true
unfolding connect_fields chosen
chosen_named flags x h = ground arith

-- The members that are left as they came.
not_chosen : ℕ → List (ℕ × Field) → List Field
not_chosen flags [] =
    map ocd_member (ocd_blocksize ∷ ocd_inodespace ∷ ocd_padding0 ∷ ocd_padding1 ∷ [])
not_chosen flags ((bit, f) ∷ rest) =
    let more = not_chosen flags rest in if has_flag flags bit then more else f ∷ more

connect_gaps : ℕ → List Field
unfolding not_chosen
connect_gaps flags = not_chosen flags (map at_member flagged_swabs)

left_out :
    (flags : ℕ) (x : ObdConnectData)
    → is_read flags x ≡ false
    → one_of (ocd_member x) (connect_gaps flags) ≡ true
unfolding connect_gaps not_chosen
left_out flags x h = ground arith

gaps_apart : (flags : ℕ) → apart_all (connect_gaps flags) (connect_fields flags) ≡ true
unfolding connect_gaps not_chosen connect_fields chosen
gaps_apart flags = ground arith

chosen_disjoint : (flags : ℕ) → disjoint (connect_fields flags) ≡ true
unfolding connect_fields chosen
chosen_disjoint flags = ground arith

-- The routine turns the members that the sender's flags announce, and those that every version
-- has, from the sender's order to the receiver's, and leaves the bytes of the others.
pub swab_connect-orders :
    (b : ℕ) (mem : Memory) (x : ObdConnectData)
    → load_le (lustre_swab_connect b mem) (b + (ocd_member x).0) (ocd_member x).1 ≡ (
        if is_read (load_be mem b 8) x
        then load_be mem (b + (ocd_member x).0) (ocd_member x).1
        else load_le mem (b + (ocd_member x).0) (ocd_member x).1)
swab_connect-orders b mem x =
    let flags = load_be mem b 8 in
    rw (swab_connect_lem b mem) (elim (Bool-cases (is_read flags x)) [
      | inl t ↦ rw t (
          swabs-read (ocd_member x) (connect_fields flags) b mem
            (disjoint-Disjoint (connect_fields flags) (chosen_disjoint flags))
            (one_of-IsOneOf (ocd_member x) (connect_fields flags) (chosen_named flags x t)))
      | inr t ↦ rw t (
          load_le_cong (swabs (connect_fields flags) b mem) mem (b + (ocd_member x).0)
            (ocd_member x).1
            (λ i k.
              swabs-elsewhere (ocd_member x) (connect_fields flags) b i mem
                (apart_all-AllApart (ocd_member x) (connect_gaps flags) (connect_fields flags)
                  (gaps_apart flags) (left_out flags x t))
                k))
    ])
