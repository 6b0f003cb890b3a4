-- ===== src/Nrs/Tbf/Table/Refresh.antt =====
-- The lookup of a request's client (`nrs_tbf_res_get`) against the invariant of the table.
use lustre_tools.Base.{
  ℕ, zero, suc, ◌+◌, ◌<◌, ◌≡◌, refl, Bool, true, false, List, [], ◌∷◌, Option, none, some, ◌==◌,
  if◌then◌else◌, get_elem?, set, arith, Bool-cases, inl, inr, ◌||◌, not,
}
use lustre_tools.Nrs.Tbf.Rules.{
  Rule, Client, Head, listed, owns, users, set_ref, nrs_tbf_rule_put, first_rule,
  nrs_tbf_rule_match, nrs_tbf_cli_rule_put, nrs_tbf_cli_reset_value, nrs_tbf_cli_reset, set_client,
}
use lustre_tools.Nrs.Tbf.Rules.Keep.{
  Sound, none_held, plus_one, rule_put-Sound, rule_get-Sound, first_rule-Hits, Hits, listed_ok,
}
use lustre_tools.Nrs.Tbf.Table.{refresh_client}

users-set :
    (j : ℕ) (cs : List Client) (i : ℕ) (c c' : Client)
    → get_elem? cs i ≡ some c
    → users j (set cs i c') + owns j c.tc_rule ≡ users j cs + owns j c'.tc_rule
users-set j [] i c c' e = ground (arith, e)
users-set j (d ∷ cs) zero c c' e = ground (arith, e)
users-set j (d ∷ cs) (suc i) c c' e = ground (arith, users-set j cs i c c' e)

get_elem?-set :
    (cs : List Client) (i : ℕ) (c c' : Client)
    → get_elem? cs i ≡ some c
    → get_elem? (set cs i c') i ≡ some c'
get_elem?-set [] i c c' e = ground (arith, e)
get_elem?-set (d ∷ cs) zero c c' e = refl
get_elem?-set (d ∷ cs) (suc i) c c' e = get_elem?-set cs i c c' e

-- A client changes, and the references change with the rule that it follows.
set_client-Sound :
    (h : Head) (i : ℕ) (c c' : Client) (extra extra' : ℕ → ℕ)
    → Sound extra h
    → get_elem? h.clients i ≡ some c
    → ((j : ℕ) → extra' j + owns j c'.tc_rule ≡ extra j + owns j c.tc_rule)
    → Sound extra' (set_client h i c')
set_client-Sound h i c c' extra extra' v at same = record {
  refs = record {
    counted = λ j. omega (arith, v.refs.counted j, users-set j h.clients i c c' at, same j);
  };
  once = v.once;
  running = v.running;
  fresh = v.fresh;
  default_id = v.default_id;
  has_default = v.has_default;
  default_name = v.default_name;
  default_listed = v.default_listed;
}

-- The match gives a rule of the list, with a reference to it.
rule_match-Sound :
    (o_rule_match : Rule → Client → Bool) (h : Head) (c : Client) (extra : ℕ → ℕ)
    → Sound extra h
    → (id n : ℕ) × (nrs_tbf_rule_match o_rule_match h c ≡ some (set_ref h id n, id))
      × (0 < listed id h.th_list)
      × Sound (plus_one extra id) (set_ref h id n)
unfolding nrs_tbf_rule_match
rule_match-Sound o_rule_match h c extra v =
    let (found, step, hits) =
      first_rule-Hits h.rule_at (λ r. o_rule_match r c) h.th_list (listed_ok h extra v) in
    go found step hits
  where
    go :
        (found : Option ℕ)
        → first_rule h.rule_at (λ r. o_rule_match r c) h.th_list ≡ some found
        → Hits h.rule_at (λ r. o_rule_match r c) h.th_list found
        → (id n : ℕ) × (nrs_tbf_rule_match o_rule_match h c ≡ some (set_ref h id n, id))
          × (0 < listed id h.th_list)
          × Sound (plus_one extra id) (set_ref h id n)
    go none step hits =
        let (n, got, sound) = rule_get-Sound h v.default_id extra v v.default_listed in
        (v.default_id, n, ground (arith, step, v.has_default, got), v.default_listed, sound)
    go (some id) step hits =
        let (n, got, sound) = rule_get-Sound h id extra v hits.0 in
        (id, n, ground (arith, step, got), hits.0, sound)

-- Client i is in the table and has a rule.
abbrev pub HasRule : ℕ → Head → Type 0
HasRule i h = (c : Client) × (id : ℕ) × (get_elem? h.clients i ≡ some c) × (c.tc_rule ≡ some id)

-- A lookup of client i returns, and leaves a sound table, where the client has a rule.
abbrev pub Settles : ℕ → Option Head → Type 0
Settles i o = (h' : Head) × (o ≡ some h') × Sound none_held h' × HasRule i h'

abbrev left : Client → Client
left c = record c { tc_rule = none }

cli_reset-step :
    (h h' : Head) (id old i now : ℕ) (c : Client)
    → c.tc_rule ≡ some old
    → (old == id) ≡ false
    → nrs_tbf_rule_put (set_client h i (left c)) old ≡ some h'
    → nrs_tbf_cli_reset h id i c now
      ≡ some (set_client h' i (nrs_tbf_cli_reset_value h' id (record c { tc_rule = some id }) now))
unfolding nrs_tbf_cli_reset nrs_tbf_cli_rule_put
cli_reset-step h h' id old i now c follows apart put = ground (arith, follows, apart, put)

cli_reset-Sound :
    (h : Head) (id old i now : ℕ) (c : Client)
    → Sound (plus_one none_held id) h
    → get_elem? h.clients i ≡ some c
    → c.tc_rule ≡ some old
    → (id == old) ≡ false
    → Settles i (nrs_tbf_cli_reset h id i c now)
unfolding nrs_tbf_cli_reset_value
cli_reset-Sound h id old i now c v at follows other =
    let apart : (old == id) ≡ false = ground arith in
    let sound1 : Sound (plus_one (plus_one none_held id) old) (set_client h i (left c)) =
      set_client-Sound h i c (left c) (plus_one none_held id) (plus_one (plus_one none_held id) old)
        v at (λ j. rw follows (ground arith)) in
    let (n, put, sound2) =
      rule_put-Sound (set_client h i (left c)) old (plus_one none_held id) sound1 in
    let h2 = set_ref (set_client h i (left c)) old n in
    let c' = nrs_tbf_cli_reset_value h2 id (record c { tc_rule = some id }) now in
    let sound3 : Sound none_held (set_client h2 i c') =
      set_client-Sound h2 i (left c) c' (plus_one none_held id) none_held sound2
        (get_elem?-set h.clients i c (left c) at) (λ j. ground arith) in
    (
      set_client h2 i c',
      cli_reset-step h h2 id old i now c follows apart put,
      sound3,
      (
        c',
        id,
        get_elem?-set h2.clients i (left c) c' (get_elem?-set h.clients i c (left c) at),
        refl,
      ),
    )

moved :
    (o_rule_match : Rule → Client → Bool) (h h1 h2 : Head) (i now id rule : ℕ) (c : Client)
    → c.tc_rule ≡ some id
    → (not (c.tc_rule_sequence == h.th_rule_sequence) || (h.rule_at id).stopping) ≡ true
    → nrs_tbf_rule_match o_rule_match h c ≡ some (h1, rule)
    → (if rule == id then nrs_tbf_rule_put h1 rule else nrs_tbf_cli_reset h1 rule i c now) ≡ some h2
    → refresh_client o_rule_match h i c now ≡ some h2
unfolding refresh_client
moved o_rule_match h h1 h2 i now id rule c follows stale step reset =
    ground (arith, follows, stale, step, reset)

-- The lookup of a client that the hash table has and that has a rule, as the function asserts, returns
-- and leaves the table sound, with the client in it and a rule for the client: no other failed
-- assertion, no rule that was freed, and every count right again, whether the client stays with its
-- rule, takes over its new rate, or moves to another one.
pub refresh_client-Sound :
    (o_rule_match : Rule → Client → Bool) (h : Head) (i now id : ℕ) (c : Client)
    → Sound none_held h
    → get_elem? h.clients i ≡ some c
    → c.tc_rule ≡ some id
    → Settles i (refresh_client o_rule_match h i c now)
unfolding refresh_client nrs_tbf_cli_reset_value
refresh_client-Sound o_rule_match h i now id c v at follows =
    elim (Bool-cases (not (c.tc_rule_sequence == h.th_rule_sequence) || (h.rule_at id).stopping)) [
      | inl stale ↦
          let (rule, n, step, l, held) = rule_match-Sound o_rule_match h c none_held v in
          elim (Bool-cases (rule == id)) [
            | inl same ↦
                let (m, put, sound) = rule_put-Sound (set_ref h rule n) rule none_held held in
                (
                  set_ref (set_ref h rule n) rule m,
                  moved o_rule_match h _ _ i now id rule c follows stale step (rw same put),
                  sound,
                  (c, id, at, follows),
                )
            | inr other ↦
                let (h', reset, sound, ruled) =
                  cli_reset-Sound (set_ref h rule n) rule id i now c held at follows other in
                (
                  h',
                  moved o_rule_match h _ _ i now id rule c follows stale step (rw other reset),
                  sound,
                  ruled,
                )
          ]
      | inr current ↦
          elim (Bool-cases (not (c.tc_rule_generation == (h.rule_at id).tr_generation))) [
            | inl changed ↦ (
              set_client h i (nrs_tbf_cli_reset_value h id c now),
              ground (arith, follows, current, changed),
              set_client-Sound h i c (nrs_tbf_cli_reset_value h id c now) none_held none_held v at
                  (λ j. refl),
              (
                nrs_tbf_cli_reset_value h id c now,
                id,
                get_elem?-set h.clients i c (nrs_tbf_cli_reset_value h id c now) at,
                follows,
              ),
            )
            | inr kept ↦ (h, ground (arith, follows, current, kept), v, (c, id, at, follows))
          ]
    ]
