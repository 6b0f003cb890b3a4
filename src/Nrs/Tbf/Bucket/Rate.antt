-- ===== src/Nrs/Tbf/Bucket/Rate.antt =====
-- The requests that the bucket of `nrs_tbf_req_get` hands out over a stretch of time.
use native.Mathlib.Nat.{mul-le-mul_right, add-mul}
use lustre_tools.Base.{
  ℕ, ◌+◌, ◌-◌, ◌*◌, ◌/◌, ◌≤◌, ◌<◌, ◌≡◌, List, [], ◌∷◌, arith, ◌⊎◌, Bool-cases, inl, inr, ltb,
}
use lustre_tools.Nrs.Tbf.Bucket.{
  Bucket, grant, throttle, tokens_at, ask, serve, nsec_per_sec, deadline,
}

-- The tokens that the rate gives in a time.
abbrev pub earned : ℕ → ℕ → ℕ
earned rate passed = passed * rate / nsec_per_sec

-- Times do not go back, from `s` up to `e`.
abbrev pub Between : ℕ → ℕ → List ℕ → Type 0
Between s e [] = s ≤ e
Between s e (now ∷ rest) = (s ≤ now) × Between now e rest

tokens_at-le :
    (b : Bucket) (now : ℕ)
    → tokens_at b now ≤ earned b.tc_rpc_rate (now - b.tc_check_time) + b.tc_ntoken
unfolding tokens_at
tokens_at-le b now = ground arith

tokens_at-depth : (b : Bucket) (now : ℕ) → tokens_at b now ≤ b.tc_depth
unfolding tokens_at
tokens_at-depth b now = ground arith

-- Two stretches of time earn at most what the whole earns.
earned-add : (rate p q : ℕ) → earned rate p + earned rate q ≤ earned rate (p + q)
earned-add rate p q = omega (arith, add-mul p q rate)

earned_mono : (rate p q : ℕ) → p ≤ q → earned rate p ≤ earned rate q
earned_mono rate p q h = omega (arith, mul-le-mul_right {m = p} {n = q} rate h)

pub granted : Bucket → ℕ → Bucket
granted b now = record b { tc_ntoken = tokens_at b now - 1; tc_check_time = now }

Between-earlier : (s s' e : ℕ) (times : List ℕ) → s' ≤ s → Between s e times → Between s' e times
Between-earlier s s' e [] h b = omega arith
Between-earlier s s' e (now ∷ rest) h b = (omega arith, b.1)

Between-end : (s e : ℕ) (times : List ℕ) → Between s e times → s ≤ e
Between-end s e [] b = b
Between-end s e (now ∷ rest) b = omega (arith, Between-end now e rest b.1)

-- A client that is asked in the order of time either waits for its deadline or gets one token.
pub ask-cases :
    (b : Bucket) (now : ℕ)
    → b.tc_check_time ≤ now
    → ((tokens_at b now ≡ 0) × (ask b now ≡ throttle (deadline b)))
      ⊎ ((0 < tokens_at b now) × (ask b now ≡ grant (granted b now)))
unfolding ask granted
ask-cases b now h = elim (Bool-cases (ltb 0 (tokens_at b now))) [
  | inl has ↦ inr (ground arith, ground arith)
  | inr none_left ↦ inl (ground arith, ground arith)
]

serve-le :
    (times : List ℕ) (b : Bucket) (e : ℕ)
    → Between b.tc_check_time e times
    → (serve b times).0 ≤ b.tc_ntoken + earned b.tc_rpc_rate (e - b.tc_check_time)
unfolding serve granted
serve-le [] b e h = omega arith
serve-le (now ∷ rest) b e h = elim (ask-cases b now h.0) [
  | inl (_, waits) ↦ rw (waits, serve) (serve-le rest b e (Between-earlier now _ e rest h.0 h.1))
  | inr (has, gets) ↦
      let rate = b.tc_rpc_rate in
      let ih = serve-le rest (granted b now) e h.1 in
      let last = Between-end now e rest h.1 in
      let split : now - b.tc_check_time + (e - now) ≡ e - b.tc_check_time = omega arith in
      let sum : earned rate (now - b.tc_check_time) + earned rate (e - now)
          ≤ earned rate (e - b.tc_check_time) =
        rw split at (earned-add rate (now - b.tc_check_time) (e - now)) in
      rw (gets, serve) (omega (arith, ih, tokens_at-le b now, sum))
]

-- In any stretch of time from `s` to `e` a client gets at most the requests that its depth and its
-- rate allow, whenever and however often it is asked: `tc_depth` plus `tc_rpc_rate` for each second.
pub serve-window :
    (times : List ℕ) (b : Bucket) (s e : ℕ)
    → b.tc_check_time ≤ s
    → Between s e times
    → (serve b times).0 ≤ b.tc_depth + earned b.tc_rpc_rate (e - s)
unfolding serve granted
serve-window [] b s e le h = omega arith
serve-window (now ∷ rest) b s e le h = elim (ask-cases b now (omega arith)) [
  | inl (_, waits) ↦
      rw (waits, serve) (serve-window rest b s e le (Between-earlier now _ e rest h.0 h.1))
  | inr (has, gets) ↦
      let rate = b.tc_rpc_rate in
      let ih = serve-le rest (granted b now) e h.1 in
      let less = earned_mono rate (e - now) (e - s) (omega arith) in
      rw (gets, serve) (omega (arith, ih, tokens_at-depth b now, less))
]
