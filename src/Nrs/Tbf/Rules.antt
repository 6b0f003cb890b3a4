-- ===== src/Nrs/Tbf/Rules.antt =====
-- The table of rules and the clients that follow them, in source/build/metric/nrs_tbf.c: rules are
-- objects with a reference count, for their place in the list and for each client.
-- The store holds the rules by their pointers; a rule whose count is 0 has been freed. `none` is a
-- fault: a failed LASSERT, a NULL pointer or a freed rule that is touched.
-- The operations of the policy's type (`th_ops`), the allocator and the clock are arguments.
pub mod Refs
pub mod Keep
use lustre_tools.Base.{
  ◌>>=◌, ◌>>◌, lassert, update, ℕ, zero, suc, ◌+◌, ◌-◌, ◌*◌, ◌/◌, ◌%◌, ◌^◌, Bool, true, false, ◌&&◌,
  ◌||◌, not, List, [], ◌∷◌, ◌++◌, Option, none, some, ℤ, ltb, ◌==◌, if◌then◌else◌, length,
  get_elem?, set, eperm, enoent, eexist, enomem, success, eqb_ℤ, pos,
}
use lustre_tools.Nrs.Tbf.Bucket.{Bucket, Limit, reset_value, nsec_per_sec}

-- `struct nrs_tbf_rule`; the name's bytes.
pub record Rule : Type 0 where
  pub tr_name : List ℕ
  pub tr_rpc_rate : ℕ
  pub tr_nsecs : ℕ
  pub tr_depth : ℕ
  pub stopping : Bool
  pub is_default : Bool
  pub tr_ref : ℕ
  pub tr_generation : ℕ

-- "default"
abbrev pub default_rule : List ℕ
default_rule = 100 ∷ 101 ∷ 102 ∷ 97 ∷ 117 ∷ 108 ∷ 116 ∷ []

-- `struct nrs_tbf_client`, less its queue. A client that follows a rule is in the rule's list.
pub record Client : Type 0 where
  pub tc_key : ℕ
  pub tc_ref : ℕ
  pub tc_rule : Option ℕ
  pub tc_rule_generation : ℕ
  pub tc_rule_sequence : ℕ
  pub bucket : Bucket

-- `struct nrs_tbf_head`: the list of rules with the newest first, the store, and the clients by
-- their pointers. `next_rule` is the pointer that the allocator gives next.
pub record Head : Type 0 where
  pub th_list : List ℕ
  pub th_rule : Option ℕ
  pub th_rule_sequence : ℕ
  pub rule_at : ℕ → Rule
  pub next_rule : ℕ
  pub clients : List Client

-- How often a rule stands in a list.
abbrev pub listed : ℕ → List ℕ → ℕ
listed id [] = 0
listed id (r ∷ rs) = (if r == id then 1 else 0) + listed id rs

abbrev pub owns : ℕ → Option ℕ → ℕ
owns id none = 0
owns id (some r) = if r == id then 1 else 0

-- How many clients follow a rule.
abbrev pub users : ℕ → List Client → ℕ
users id [] = 0
users id (c ∷ cs) = owns id c.tc_rule + users id cs

abbrev pub set_ref : Head → ℕ → ℕ → Head
set_ref h id n = record h { rule_at = update h.rule_at id (record (h.rule_at id) { tr_ref = n }) }

-- At 0 the rule is freed, and `nrs_tbf_rule_fini` asserts that it is in no list.
unfoldable pub nrs_tbf_rule_put : Head → ℕ → Option Head
nrs_tbf_rule_put h id = elim (h.rule_at id).tr_ref [
  | zero ↦ none
  | suc n ↦
      if n == 0 && not (listed id h.th_list + users id h.clients == 0)
      then none
      else some (set_ref h id n)
]

unfoldable pub nrs_tbf_rule_get : Head → ℕ → Option Head
nrs_tbf_rule_get h id = elim (h.rule_at id).tr_ref [
  | zero ↦ none
  | suc n ↦ some (set_ref h id (suc (suc n)))
]

-- The first rule of a list that passes a test; no rule of the list may be freed or stopping.
unfoldable pub first_rule : (ℕ → Rule) → (Rule → Bool) → List ℕ → Option (Option ℕ)
first_rule rule_at test [] = some none
first_rule rule_at test (id ∷ rest) =
    let found = first_rule rule_at test rest in
    if (rule_at id).tr_ref == 0 || (rule_at id).stopping
    then none
    else if test (rule_at id)
    then some (some id)
    else found

abbrev pub same_name : List ℕ → List ℕ → Bool
same_name [] [] = true
same_name [] (c ∷ s) = false
same_name (c ∷ s) [] = false
same_name (c ∷ s) (d ∷ t) = c == d && same_name s t

-- Takes a reference where there is a rule.
abbrev pub get_found : Head → Option ℕ → Option (Head × Option ℕ)
get_found h none = some (h, none)
get_found h (some id) = nrs_tbf_rule_get h id >>= λ h'. some (h', some id)

unfoldable pub nrs_tbf_rule_find : Head → List ℕ → Option (Head × Option ℕ)
nrs_tbf_rule_find h name =
    first_rule h.rule_at (λ r. same_name r.tr_name name) h.th_list >>= get_found h

-- The newest rule that matches the client, or else the default rule; `o_rule_match` is the
-- operation of the policy's type.
unfoldable pub nrs_tbf_rule_match : (Rule → Client → Bool) → Head → Client → Option (Head × ℕ)
nrs_tbf_rule_match o_rule_match h cli = do
  found ← first_rule h.rule_at (λ r. o_rule_match r cli) h.th_list
  id ← elim found [ none ↦ h.th_rule | some id ↦ some id ]
  h' ← nrs_tbf_rule_get h id
  some (h', id)

abbrev pub set_client : Head → ℕ → Client → Head
set_client h i c = record h { clients = set h.clients i c }

-- A client leaves its rule's list, and gives up its reference.
unfoldable pub nrs_tbf_cli_rule_put : Head → ℕ → Client → Option Head
nrs_tbf_cli_rule_put h i c = elim c.tc_rule [
  | none ↦ none
  | some id ↦ nrs_tbf_rule_put (set_client h i (record c { tc_rule = none })) id
]

-- The client with the values of the rule.
unfoldable pub nrs_tbf_cli_reset_value : Head → ℕ → Client → ℕ → Client
nrs_tbf_cli_reset_value h id c now =
    let r = h.rule_at id in
    record c {
      bucket =
          reset_value
            (record { tr_rpc_rate = r.tr_rpc_rate; tr_nsecs = r.tr_nsecs; tr_depth = r.tr_depth })
            now;
      tc_rule_sequence = h.th_rule_sequence;
      tc_rule_generation = r.tr_generation;
    }

-- The client at `i` follows the rule `id`, whose reference the caller has taken.
unfoldable pub nrs_tbf_cli_reset : Head → ℕ → ℕ → Client → ℕ → Option Head
nrs_tbf_cli_reset h id i c now = do
  h' ← elim c.tc_rule [
    | none ↦ some h
    | some old ↦ (do lassert (not (old == id)); nrs_tbf_cli_rule_put h i c)
  ]
  let c' : Client = record c { tc_rule = some id }
  some (set_client h' i (nrs_tbf_cli_reset_value h' id c' now))
