-- ===== src/Qos/Bandwidth/History.antt =====
-- The bandwidth fields against the history of the requests.
use lustre_tools.Base.{
  ℕ, ◌+◌, ◌-◌, ◌%◌, ◌^◌, ◌≤◌, ◌<◌, ◌≡◌, refl, sym, eqb_ℤ, Timeval, List, [], ◌∷◌, ℤ, pos, to_u64,
  ◌==◌, if◌then◌else◌, arith,
}
use mathlib.Core.Path.{fun_ext, subst}
use native.Mathlib.Nat.{add-zero, add_assoc}
use lustre_tools.Qos.Data.{Bandwidth, QosData}
use lustre_tools.Qos.Bandwidth.{account, account_all, calc_bandwidth, calc_all}

-- The bytes of the requests of a second.
abbrev pub bytes_in : List (ℕ × ℕ) → ℕ → ℕ
bytes_in [] s = 0
bytes_in ((now, bytes) ∷ rest) s = (if now == s then bytes else 0) + bytes_in rest s

-- The bytes of the second before `s`, where there is one.
abbrev pub before : (ℕ → ℕ) → ℕ → ℕ
before f s = if s == 0 then 0 else f (s - 1)

-- Times do not go back, from `s` on.
abbrev pub Ordered : ℕ → List (ℕ × ℕ) → Type 0
Ordered s [] = Unit
Ordered s ((now, bytes) ∷ rest) = (s ≤ now) × Ordered now rest

-- The time of the last request.
abbrev pub last_time : ℕ → List (ℕ × ℕ) → ℕ
last_time s [] = s
last_time s ((now, bytes) ∷ rest) = last_time now rest

-- The fields show the bytes `f` of each second so far.
record Shows (b : Bandwidth) (f : ℕ → ℕ) : Type 0 where
  this_sec : b.sum_bytes_this_sec ≡ f b.last_req_sec % 2 ^ 64
  last_sec : b.bw_last_sec ≡ before f b.last_req_sec % 2 ^ 64
  none_later : (s : ℕ) → b.last_req_sec < s → f s ≡ 0

abbrev plus : (ℕ → ℕ) → ℕ → ℕ → ℕ → ℕ
plus f now bytes s = f s + (if now == s then bytes else 0)

account-Shows :
    (b : Bandwidth) (f : ℕ → ℕ) (now bytes : ℕ)
    → Shows b f
    → b.last_req_sec ≤ now
    → Shows (account b now (pos bytes)) (plus f now bytes)
unfolding account to_u64
account-Shows b f now bytes h le = record {
  this_sec = ground (arith, h.this_sec, h.none_later now);
  last_sec = ground (arith, h.this_sec, h.last_sec, h.none_later (now - 1));
  none_later = λ s lt. ground (arith, h.none_later s);
}

account-last :
    (b : Bandwidth) (now bytes : ℕ)
    → b.last_req_sec ≤ now
    → (account b now (pos bytes)).last_req_sec ≡ now
unfolding account
account-last b now bytes le = ground arith

account_all-Shows :
    (es : List (ℕ × ℕ)) (b : Bandwidth) (f : ℕ → ℕ)
    → Shows b f
    → Ordered b.last_req_sec es
    → Shows (account_all b es) (λ s. f s + bytes_in es s)
      × ((account_all b es).last_req_sec ≡ last_time b.last_req_sec es)
unfolding account_all account
account_all-Shows [] b f h o = (subst (Shows b) (fun_ext (λ s. sym (add-zero (f s)))) h, refl)
account_all-Shows ((now, bytes) ∷ rest) b f h o =
    let b' = account b now (pos bytes) in
    let at : b'.last_req_sec ≡ now = account-last b now bytes o.0 in
    let rec =
      account_all-Shows rest b' (plus f now bytes) (account-Shows b f now bytes h o.0)
        (rw at o.1) in
    (subst (Shows (account_all b' rest)) (fun_ext (λ s. add_assoc _ _ _)) rec.0, rw at at rec.1)

-- The seconds and the bytes of the calls for an operation.
abbrev pub of_op : ℕ → List (Timeval × ℤ × ℕ) → List (ℕ × ℕ)
of_op op [] = []
of_op op ((now, o, bytes) ∷ rest) =
    if eqb_ℤ o (pos op) then (now.tv_sec, bytes) ∷ of_op op rest else of_op op rest

calc_all-read :
    (es : List (Timeval × ℤ × ℕ)) (q : QosData)
    → (calc_all q es).read ≡ account_all q.read (of_op 0 es)
unfolding calc_all calc_bandwidth account_all
calc_all-read [] q = refl
calc_all-read ((now, op, bytes) ∷ rest) q =
    ground (arith, calc_all-read rest (calc_bandwidth q now op (pos bytes)))

calc_all-write :
    (es : List (Timeval × ℤ × ℕ)) (q : QosData)
    → (calc_all q es).write ≡ account_all q.write (of_op 1 es)
unfolding calc_all calc_bandwidth account_all
calc_all-write [] q = refl
calc_all-write ((now, op, bytes) ∷ rest) q =
    ground (arith, calc_all-write rest (calc_bandwidth q now op (pos bytes)))

-- What the fields of an operation show after the requests `es`, begun at second `s`.
abbrev pub Reports : ℕ → List (ℕ × ℕ) → Bandwidth → Type 0
Reports s es b =
    (b.last_req_sec ≡ last_time s es)
    × (b.sum_bytes_this_sec ≡ bytes_in es b.last_req_sec % 2 ^ 64)
    × (b.bw_last_sec ≡ before (bytes_in es) b.last_req_sec % 2 ^ 64)

abbrev pub IsFresh : Bandwidth → Type 0
IsFresh b = (b.sum_bytes_this_sec ≡ 0) × (b.bw_last_sec ≡ 0)

account_all-Reports :
    (es : List (ℕ × ℕ)) (b : Bandwidth)
    → IsFresh b
    → Ordered b.last_req_sec es
    → Reports b.last_req_sec es (account_all b es)
account_all-Reports es b z o =
    let start : Shows b (λ s. 0) = record {
      this_sec = z.0;
      last_sec = ground arith;
      none_later = λ s lt. refl;
    } in
    let r = account_all-Shows es b (λ s. 0) start o in
    (r.1, ground (arith, r.0.this_sec), ground (arith, r.0.last_sec))

-- After any calls in the order of time, of both operations in any mixture, the fields of each
-- operation hold the second of its last request, the bytes of its requests in that second, and the
-- bytes of those in the second before (modulo 2^64).
pub calc_all-Reports :
    (q : QosData) (es : List (Timeval × ℤ × ℕ))
    → IsFresh q.read
    → IsFresh q.write
    → Ordered q.read.last_req_sec (of_op 0 es)
    → Ordered q.write.last_req_sec (of_op 1 es)
    → Reports q.read.last_req_sec (of_op 0 es) (calc_all q es).read
      × Reports q.write.last_req_sec (of_op 1 es) (calc_all q es).write
calc_all-Reports q es r w ro wo = (
  rw (calc_all-read es q) (account_all-Reports (of_op 0 es) q.read r ro),
  rw (calc_all-write es q) (account_all-Reports (of_op 1 es) q.write w wo),
)
