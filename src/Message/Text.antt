-- ===== src/Message/Text.antt =====
-- lustre_msg_string of pack_generic.c: a buffer as a string.
use lustre_tools.Base.{
  ℕ, zero, suc, ◌+◌, ◌-◌, ◌≤◌, ◌<◌, ◌≡◌, ◌≢◌, ◌↔◌, refl, sym, ap, ◌∙◌, inl, inr, Bool, true, false,
  Option, none, some, some_inj, leb, ◌==◌, if◌then◌else◌, ◌>>◌, lassert, Bool-cases, Option-cases,
  arith,
}
use lustre_tools.Message.{
  Memory, Libcfs, LustreMsg, lustre_msg_magic_v2, lustre_msg_buf_v2, lustre_msg_buflen_v2,
}
use lustre_tools.Message.Layout.{buf_inv}

-- The C library's strnlen.
unfoldable pub strnlen : Memory → ℕ → ℕ → ℕ
strnlen mem p zero = 0
strnlen mem p (suc n) = let rest = strnlen mem (p + 1) n in if mem p == 0 then 0 else suc rest

-- The tests of the string's length; 0 for `max_len` asks for a string that fills the buffer.
unfoldable pub fits_string : ℕ → ℕ → ℕ → Bool
fits_string slen blen max_len =
    if slen == blen then false else if max_len == 0 then slen == (blen - 1) else leb slen max_len

-- `none` is a failed assertion on the magic, and `some none` is NULL.
unfoldable pub lustre_msg_string : Libcfs → LustreMsg → ℕ → ℕ → Option (Option ℕ)
lustre_msg_string l m index max_len =
    lassert (m.lm_magic == lustre_msg_magic_v2)
    >> some (elim (lustre_msg_buf_v2 l m index 0) [
      | none ↦ none
      | some str ↦
          let blen = lustre_msg_buflen_v2 m index in
          if fits_string (strnlen m.bytes str blen) blen max_len then some str else none
    ])

-- The bytes at `p` are `n` that are not 0 and then a 0.
abbrev pub IsString : Memory → ℕ → ℕ → Type 0
IsString mem p n = ((i : ℕ) → i < n → mem (p + i) ≢ 0) × (mem (p + n) ≡ 0)

cons-IsString :
    (mem : Memory) (p n : ℕ) → mem p ≢ 0 → IsString mem (p + 1) n → IsString mem p (suc n)
cons-IsString mem p n head (each, last) = (all, grind (arith, last))
  where
    all : (i : ℕ) → i < suc n → mem (p + i) ≢ 0
    all zero k e = head (grind (arith, e))
    all (suc i) k e = each i (omega arith) (grind (arith, e))

tail-IsString : (mem : Memory) (p n : ℕ) → IsString mem p (suc n) → IsString mem (p + 1) n
tail-IsString mem p n (each, last) =
    ((λ i k e. each (suc i) (omega arith) (grind (arith, e))), grind (arith, last))

strnlen_le : (mem : Memory) (p n : ℕ) → strnlen mem p n ≤ n
unfolding strnlen
strnlen_le mem p zero = omega arith
strnlen_le mem p (suc n) = ground (arith, strnlen_le mem (p + 1) n)

strnlen-IsString : (mem : Memory) (p n : ℕ) → strnlen mem p n < n → IsString mem p (strnlen mem p n)
unfolding strnlen
strnlen-IsString mem p zero h = absurd (omega arith)
strnlen-IsString mem p (suc n) h = elim (Bool-cases (mem p == 0)) [
  | inl t ↦ rw t ((λ i k. absurd (omega arith)), grind arith)
  | inr t ↦ rw t (
      cons-IsString mem p (strnlen mem (p + 1) n) (ground arith)
        (strnlen-IsString mem (p + 1) n (ground arith)))
]

-- The length is that of the string that stands there.
strnlen_lem : (mem : Memory) (p n k : ℕ) → k < n → IsString mem p k → strnlen mem p n ≡ k
unfolding strnlen
strnlen_lem mem p zero k h s = absurd (omega arith)
strnlen_lem mem p (suc n) zero h (each, last) =
    let at_p : mem p ≡ 0 = grind (arith, last) in ground (arith, at_p)
strnlen_lem mem p (suc n) (suc k) h (each, last) =
    let head : mem p ≢ 0 = λ e. each 0 (omega arith) (grind (arith, e)) in
    ground
      (arith, head, strnlen_lem mem (p + 1) n k (omega arith) (tail-IsString mem p k (each, last)))

-- What `max_len` asks of a string of `n` bytes in a buffer of `blen`.
abbrev pub IsAllowed : ℕ → ℕ → ℕ → Type 0
IsAllowed n blen zero = n + 1 ≡ blen
IsAllowed n blen (suc k) = n ≤ suc k

fits_inv :
    (n blen max_len : ℕ)
    → n ≤ blen
    → fits_string n blen max_len ≡ true
    → (n < blen) × IsAllowed n blen max_len
unfolding fits_string
fits_inv n blen zero h e = ground (arith, e)
fits_inv n blen (suc k) h e = ground (arith, e)

fits_true :
    (n blen max_len : ℕ) → n < blen → IsAllowed n blen max_len → fits_string n blen max_len ≡ true
unfolding fits_string
fits_true n blen zero h e = ground (arith, e)
fits_true n blen (suc k) h e = ground (arith, e)

buflen_lem : (m : LustreMsg) (n : ℕ) → n < m.lm_bufcount → lustre_msg_buflen_v2 m n ≡ m.lm_buflens n
unfolding lustre_msg_buflen_v2
buflen_lem m n h = ground arith

-- What a string in a buffer is.
abbrev pub IsText : LustreMsg → ℕ → ℕ → ℕ → Type 0
IsText m index max_len p =
    (n : ℕ) × (n < m.lm_buflens index)
    × IsString m.bytes p n
    × IsAllowed n (m.lm_buflens index) max_len

is_there :
    (l : Libcfs) (m : LustreMsg) (index max_len p : ℕ)
    → m.lm_magic ≡ lustre_msg_magic_v2
    → lustre_msg_string l m index max_len ≡ some (some p)
    → (lustre_msg_buf_v2 l m index 0 ≡ some p) × IsText m index max_len p
unfolding lustre_msg_string
is_there l m index max_len p magic e =
    let blen : ℕ = lustre_msg_buflen_v2 m index in
    let magic_ok : (m.lm_magic == lustre_msg_magic_v2) ≡ true = ground (arith, magic) in
    elim (Option-cases (lustre_msg_buf_v2 l m index 0)) [
      | inl t ↦ absurd (ground (arith, rw (lustre_msg_string, magic_ok, t) at e))
      | inr (a, t) ↦ elim (Bool-cases (fits_string (strnlen m.bytes a blen) blen max_len)) [
        | inr u ↦ absurd (ground (arith, rw (lustre_msg_string, magic_ok, t, u) at e))
        | inl u ↦
            let found : a ≡ p = some_inj (some_inj (rw (lustre_msg_string, magic_ok, t, u) at e)) in
            let in_count : index < m.lm_bufcount = (buf_inv l m index 0 a t).0 in
            let is_blen : blen ≡ m.lm_buflens index = buflen_lem m index in_count in
            let (short, allowed) =
              fits_inv (strnlen m.bytes a blen) blen max_len (strnlen_le m.bytes a blen) u in
            (
              t ∙ ap some found,
              rw (sym found, sym is_blen)
                  (strnlen m.bytes a blen, short, strnlen-IsString m.bytes a blen short, allowed),
            )
      ]
    ]

is_found :
    (l : Libcfs) (m : LustreMsg) (index max_len p : ℕ)
    → m.lm_magic ≡ lustre_msg_magic_v2
    → lustre_msg_buf_v2 l m index 0 ≡ some p
    → IsText m index max_len p
    → lustre_msg_string l m index max_len ≡ some (some p)
unfolding lustre_msg_string
is_found l m index max_len p magic t (n, short, text, allowed) =
    let magic_ok : (m.lm_magic == lustre_msg_magic_v2) ≡ true = ground (arith, magic) in
    let in_count : index < m.lm_bufcount = (buf_inv l m index 0 p t).0 in
    rw
      (
        lustre_msg_string,
        magic_ok,
        t,
        buflen_lem m index in_count,
        strnlen_lem m.bytes p (m.lm_buflens index) n short text,
        fits_true n (m.lm_buflens index) max_len short allowed,
      )
      refl

-- A message gives a string exactly when its buffer is there and holds, within its length, bytes that
-- are not 0 and then a 0: at most `max_len` of them, or with 0 for it as many as fill the buffer.
pub msg_string_iff :
    (l : Libcfs) (m : LustreMsg) (index max_len p : ℕ)
    → m.lm_magic ≡ lustre_msg_magic_v2
    → (lustre_msg_string l m index max_len ≡ some (some p))
      ↔ ((lustre_msg_buf_v2 l m index 0 ≡ some p) × IsText m index max_len p)
msg_string_iff l m index max_len p magic =
    (is_there l m index max_len p magic, λ (t, text). is_found l m index max_len p magic t text)
