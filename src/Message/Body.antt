-- ===== src/Message/Body.antt =====
-- lustre_unpack_ptlrpc_body_v2 of pack_generic.c on a request: its body is turned once.
mod Tests
use lustre_tools.Base.{
  ℕ, zero, suc, ◌+◌, ◌-◌, ◌*◌, ◌/◌, ◌%◌, ◌^◌, ◌≤◌, ◌<◌, ◌≡◌, refl, sym, ap, ◌∙◌, ◌⊎◌, inl, inr,
  Bool, true, false, not, ◌&&◌, Option, none, some, some_inj, ltb, ◌==◌, if◌then◌else◌, ◌>>=◌, ◌>>◌,
  lassert, Bool-cases, Option-cases, ℤ, success, einval, efault, arith,
}
use mathlib.Core.Path.{subst}
use native.Mathlib.Nat.{one-le-pow}
use lustre_tools.Message.{Libcfs, LustreMsg, lustre_msg_buf_v2}
use lustre_tools.Message.Unpack.{
  SwabRequest, swabbed_bit, set_swabbed_bit, ptlrpc_buf_set_swabbed, ptlrpc_buf_need_swab,
  with_bytes, swab_body_once, check_body, lustre_unpack_ptlrpc_body_v2, msg_ptlrpc_header_off,
}
use lustre_tools.Wire.{Memory, load_le, load_be}
use lustre_tools.Wire.Structs.{PtlrpcBody, member, is_word, lustre_swab_ptlrpc_body}
use lustre_tools.Wire.Body.{swab_ptlrpc_body-orders}

-- A bit that is set reads as set.
bit_set : (mask p : ℕ) → 0 < p → (mask / p % 2) ≡ 0 → ((mask + p) / p % 2) ≡ 1
bit_set mask p h k = grind arith

set_bit-reads :
    (mask mask' index : ℕ)
    → set_swabbed_bit mask index ≡ some mask'
    → swabbed_bit mask' index ≡ some true
unfolding set_swabbed_bit swabbed_bit
set_bit-reads mask mask' index e = elim (Bool-cases (ltb index 32)) [
  | inr t ↦ absurd (ground (arith, rw t at e))
  | inl t ↦ elim (Bool-cases ((mask / 2 ^ index % 2) == 1)) [
    | inl u ↦ absurd (ground (arith, rw (t, u) at e))
    | inr u ↦
        let is_sum : some (mask + 2 ^ index) ≡ some mask' = rw (t, u) at e in
        let was_clear : mask / 2 ^ index % 2 ≡ 0 = ground arith in
        rw
          (
            t,
            sym (some_inj is_sum),
            bit_set mask (2 ^ index) (one-le-pow index 2 (omega arith)) was_clear,
          )
          refl
  ]
]

module _ (l : Libcfs) (f : ℕ → ℕ) where
  -- The body is left, or it is turned and its bit is set.
  pub once_cases :
      (req req' : SwabRequest) (offset pb : ℕ)
      → swab_body_once l f req true offset pb ≡ some req'
      → ((ptlrpc_buf_need_swab req true offset ≡ some false) × (req ≡ req'))
        ⊎ ((ptlrpc_buf_need_swab req true offset ≡ some true)
            × ((mask : ℕ) × (set_swabbed_bit req.rq_req_swab_mask offset ≡ some mask)
                × (record (with_bytes req true (lustre_swab_ptlrpc_body pb)) {
                  rq_req_swab_mask = mask;
                }
                    ≡ req')))
  unfolding swab_body_once ptlrpc_buf_set_swabbed
  once_cases req req' offset pb e = elim (Option-cases (ptlrpc_buf_need_swab req true offset)) [
    | inl t ↦ absurd (ground (arith, rw t at e))
    | inr (false, t) ↦ inl (t, some_inj (rw t at e))
    | inr (true, t) ↦ elim (Option-cases (set_swabbed_bit req.rq_req_swab_mask offset)) [
      | inl u ↦ absurd (ground (arith, rw (t, u) at e))
      | inr (mask, u) ↦ inr (t, (mask, u, some_inj (rw (t, u) at e)))
    ]
  ]

  -- A request whose bit for the body is set needs no turn.
  done_needs :
      (req : SwabRequest) (offset : ℕ)
      → swabbed_bit req.rq_req_swab_mask offset ≡ some true
      → ptlrpc_buf_need_swab req true offset ≡ some false
  unfolding ptlrpc_buf_need_swab swabbed_bit
  done_needs req offset d = rw d (never ((req.rq_req_swab_mask / 2 ^ 31 % 2) == 1))
    where
      never : (b : Bool) → ◌≡◌ {A = Option Bool} (if b then some false else some false) (some false)
      never true = refl
      never false = refl

  -- A second run leaves what the first one did, and finds the body at the same place.
  once_again :
      (req req' : SwabRequest) (offset pb : ℕ)
      → swab_body_once l f req true offset pb ≡ some req'
      → swab_body_once l f req' true offset pb ≡ some req'
  unfolding swab_body_once
  once_again req req' offset pb e = elim (once_cases req req' offset pb e) [
    | inl (t, same) ↦ rw (sym same, t) refl
    | inr (t, (mask, u, now)) ↦
        let bit : swabbed_bit req'.rq_req_swab_mask offset ≡ some true =
          rw (sym now) (set_bit-reads req.rq_req_swab_mask mask offset u) in
        rw (done_needs req' offset bit) refl
  ]

  same_place :
      (req req' : SwabRequest) (offset pb n k : ℕ)
      → swab_body_once l f req true offset pb ≡ some req'
      → lustre_msg_buf_v2 l req'.rq_reqmsg n k ≡ lustre_msg_buf_v2 l req.rq_reqmsg n k
  unfolding lustre_msg_buf_v2
  same_place req req' offset pb n k e = elim (once_cases req req' offset pb e) [
    | inl (t, same) ↦ rw same refl
    | inr (t, (mask, u, now)) ↦ rw (sym now) refl
  ]

  body_missing :
      (req : SwabRequest) (offset : ℕ)
      → lustre_msg_buf_v2 l req.rq_reqmsg offset 152 ≡ none
      → lustre_unpack_ptlrpc_body_v2 l f req true offset ≡ some (req, efault)
  unfolding lustre_unpack_ptlrpc_body_v2
  body_missing req offset t = rw (lustre_unpack_ptlrpc_body_v2, t) refl

  checked_same :
      (req : SwabRequest) (pb : ℕ)
      → check_body l f req true pb ≡ (req, (check_body l f req true pb).1)
  unfolding check_body
  checked_same req pb =
      elim (Bool-cases ((load_le req.rq_reqmsg.bytes (pb + 12) 4 % 2 ^ 16) == 3)) [
        | inl t ↦ rw t refl
        | inr t ↦ rw t refl
      ]

  body_found :
      (req req1 : SwabRequest) (offset pb : ℕ)
      → lustre_msg_buf_v2 l req.rq_reqmsg offset 152 ≡ some pb
      → swab_body_once l f req true offset pb ≡ some req1
      → lustre_unpack_ptlrpc_body_v2 l f req true offset
        ≡ some (req1, (check_body l f req1 true pb).1)
  unfolding lustre_unpack_ptlrpc_body_v2
  body_found req req1 offset pb t u =
      rw (lustre_unpack_ptlrpc_body_v2, t, u) (ap some (checked_same req1 pb))

  body_fault :
      (req : SwabRequest) (offset pb : ℕ)
      → lustre_msg_buf_v2 l req.rq_reqmsg offset 152 ≡ some pb
      → swab_body_once l f req true offset pb ≡ none
      → lustre_unpack_ptlrpc_body_v2 l f req true offset ≡ none
  unfolding lustre_unpack_ptlrpc_body_v2
  body_fault req offset pb t u = rw (lustre_unpack_ptlrpc_body_v2, t, u) refl

  -- Unpacking the body of a request again gives the same answer and leaves the request.
  pub unpack_body-again :
      (req req' : SwabRequest) (offset : ℕ) (rc : ℤ)
      → lustre_unpack_ptlrpc_body_v2 l f req true offset ≡ some (req', rc)
      → lustre_unpack_ptlrpc_body_v2 l f req' true offset ≡ some (req', rc)
  unpack_body-again req req' offset rc e =
      elim (Option-cases (lustre_msg_buf_v2 l req.rq_reqmsg offset 152)) [
        | inl t ↦ same (sym (body_missing req offset t) ∙ e) (body_missing req offset t)
        | inr (pb, t) ↦ elim (Option-cases (swab_body_once l f req true offset pb)) [
          | inl u ↦ absurd (ground (arith, sym (body_fault req offset pb t u) ∙ e))
          | inr (req1, u) ↦ same (sym (body_found req req1 offset pb t u) ∙ e) (
              body_found req1 req1 offset pb (same_place req req1 offset pb offset 152 u ∙ t)
                (once_again req req1 offset pb u))
        ]
      ]
    where
      same :
          {req1 : SwabRequest} {rc1 : ℤ}
          → ◌≡◌ {A = Option (SwabRequest × ℤ)} (some (req1, rc1)) (some (req', rc))
          → lustre_unpack_ptlrpc_body_v2 l f req1 true offset ≡ some (req1, rc1)
          → lustre_unpack_ptlrpc_body_v2 l f req' true offset ≡ some (req', rc)
      same p done =
          subst (λ r. lustre_unpack_ptlrpc_body_v2 l f r.0 true offset ≡ some (r.0, r.1))
            (some_inj p) done

  fresh_needs :
      (req : SwabRequest) (offset : ℕ)
      → swabbed_bit req.rq_req_swab_mask msg_ptlrpc_header_off ≡ some true
      → swabbed_bit req.rq_req_swab_mask offset ≡ some false
      → ptlrpc_buf_need_swab req true offset ≡ some true
  unfolding ptlrpc_buf_need_swab
  fresh_needs req offset header fresh = rw (header, fresh) refl

  -- In a request whose header came in the other order, the body is turned on its first visit: the
  -- integers of the sender are then read as they were written, and the other members stay.
  pub unpack_body-orders :
      (req req' : SwabRequest) (offset pb : ℕ) (rc : ℤ) (x : PtlrpcBody)
      → swabbed_bit req.rq_req_swab_mask msg_ptlrpc_header_off ≡ some true
      → swabbed_bit req.rq_req_swab_mask offset ≡ some false
      → lustre_msg_buf_v2 l req.rq_reqmsg offset 152 ≡ some pb
      → lustre_unpack_ptlrpc_body_v2 l f req true offset ≡ some (req', rc)
      → load_le req'.rq_reqmsg.bytes (pb + (member x).0) (member x).1 ≡ (
          if is_word x
          then load_be req.rq_reqmsg.bytes (pb + (member x).0) (member x).1
          else load_le req.rq_reqmsg.bytes (pb + (member x).0) (member x).1)
  unpack_body-orders req req' offset pb rc x header fresh t e =
      elim (Option-cases (swab_body_once l f req true offset pb)) [
        | inl u ↦ absurd (ground (arith, sym (body_fault req offset pb t u) ∙ e))
        | inr (req1, u) ↦
            let reached : req1 ≡ req' =
              ap (λ r. r.0) (some_inj (sym (body_found req req1 offset pb t u) ∙ e)) in
            elim (once_cases req req1 offset pb u) [
              | inl (v, _) ↦ absurd (ground (arith, sym v ∙ fresh_needs req offset header fresh))
              | inr (v, (mask, w, now)) ↦
                  rw (sym reached, sym now) (swab_ptlrpc_body-orders pb 0 req.rq_reqmsg.bytes x).0
            ]
      ]
