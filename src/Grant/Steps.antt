-- ===== src/Grant/Steps.antt =====
-- The operations of all threads on the cache of a client as steps, with what each caller owes.
use lustre_tools.Base.{
  ◌^◌, ◌%◌, some_inj, ℕ, ◌+◌, ◌-◌, ◌≤◌, ◌<◌, ◌≡◌, refl, sym, ap, ◌∙◌, Bool, false, some, inl, inr,
  Bool-cases, arith, ltb, add_u64, sub_u64,
}
use lustre_tools.Grant.{
  Cache, osc_reserve_grant, osc_enter_cache_try, osc_exit_cache, osc_unreserve_grant,
  osc_free_grant, unreserve_grant, borrow_grant, osc_wake_cache_waiters,
}
use lustre_tools.Grant.Ledger.{
  Balanced, osc_reserve_grant-Balanced, unreserve_grant-Balanced, osc_release_write_grant-Balanced,
  borrow_grant-Balanced, regrant-Balanced,
}
use lustre_tools.Grant.Enter.{Entered-Balanced, osc_enter_cache_try-Enters}
use lustre_tools.Grant.Wake.{AllWait, AllWait-same, osc_wake_cache_waiters-AllAnswered}
use lustre_tools.Grant.Server.{
  RpcLimits, Obdo, osc_announce_cached, update_grant, osc_shrink_grant_local,
}

-- A step from a client with `out` bytes elsewhere to one with `out'`. The caller of `osc_exit_cache` holds
-- a dirty page, that of `osc_unreserve_grant` a reservation, and that of `osc_free_grant` the pages and
-- the grant of an extent; these two wake waiters, whose pages are not in the cache. What goes to the
-- server is what the message says; the lost grant of an announcement is below 4 GiB. The server grants
-- what it has. Other clients change the counter of all dirty pages, which counts this client's too.
pub data Step (c : Cache) (out : ℕ) (d : Cache) (out' : ℕ) : Type 0 where
  reserve : (bytes : ℕ) → d ≡ (osc_reserve_grant c bytes).0 → out' ≡ out → Step c out d out'
  enter :
      (oap bytes : ℕ) (transient entered : Bool)
      → (c.page_at oap).from_grant ≡ false
      → osc_enter_cache_try c oap bytes transient ≡ some (d, entered)
      → out' ≡ out
      → Step c out d out'
  exit :
      (oap : ℕ) → 0 < c.cl_dirty_pages → d ≡ osc_exit_cache c oap → out' ≡ out → Step c out d out'
  unreserve :
      (reserved unused : ℕ)
      → reserved ≤ c.cl_reserved_grant
      → unused ≤ reserved + out
      → AllWait c c.cl_cache_waiters
      → osc_unreserve_grant c reserved unused ≡ some d
      → out' ≡ out + reserved - unused
      → Step c out d out'
  free_extent :
      (nr_pages lost_grant : ℕ)
      → nr_pages ≤ c.cl_dirty_pages
      → lost_grant ≤ out
      → AllWait c c.cl_cache_waiters
      → osc_free_grant c nr_pages lost_grant ≡ some d
      → out' ≡ out - lost_grant
      → Step c out d out'
  announce :
      (l : RpcLimits) (oa : Obdo)
      → c.cl_lost_grant < 2 ^ 32
      → osc_announce_cached l false c ≡ some (d, oa)
      → out' ≡ out + oa.o_dropped
      → Step c out d out'
  update :
      (grant : ℕ) → grant ≤ out → d ≡ update_grant c grant → out' ≡ out - grant → Step c out d out'
  shrink :
      (oa : Obdo)
      → d ≡ (osc_shrink_grant_local c oa).0
      → out' ≡ out + (osc_shrink_grant_local c oa).1.o_grant
      → Step c out d out'
  other_clients :
      (pages : ℕ)
      → c.cl_dirty_pages ≤ pages
      → pages < 2 ^ 64 - 1
      → d ≡ record c { obd_dirty_pages = pages }
      → out' ≡ out
      → Step c out d out'

pub data Reach (c : Cache) (out : ℕ) : Cache → ℕ → Type 0 where
  start : Reach c out c out
  next : {d e : Cache} {o p : ℕ} → Reach c out d o → Step d o e p → Reach c out e p

-- Another state that is equal.
moved : (c d : Cache) (o p all : ℕ) → d ≡ c → p ≡ o → Balanced c o all → Balanced d p all
moved c d o p all e e' b = rw (e, e') b

osc_wake_cache_waiters-Balanced :
    (c d : Cache) (out all : ℕ)
    → AllWait c c.cl_cache_waiters
    → osc_wake_cache_waiters c ≡ some d
    → Balanced c out all
    → Balanced d out all
osc_wake_cache_waiters-Balanced c d out all h e b =
    let (d', step, bd, _, _) = osc_wake_cache_waiters-AllAnswered c out all b h in
    moved d' d out out all (some_inj (sym e ∙ step)) refl bd

osc_unreserve_grant-Balanced :
    (c d : Cache) (reserved unused out all : ℕ)
    → reserved ≤ c.cl_reserved_grant
    → unused ≤ reserved + out
    → AllWait c c.cl_cache_waiters
    → osc_unreserve_grant c reserved unused ≡ some d
    → Balanced c out all
    → Balanced d (out + reserved - unused) all
unfolding osc_unreserve_grant unreserve_grant
osc_unreserve_grant-Balanced c d reserved unused out all h k wait e b =
    let c1 : Cache = unreserve_grant c reserved unused in
    let b1 = unreserve_grant-Balanced c reserved unused out all h k b in
    elim (Bool-cases (ltb 0 unused)) [
      | inl some_unused ↦
          osc_wake_cache_waiters-Balanced c1 d _ all
            (AllWait-same c c1 c.cl_cache_waiters refl wait) (ground (arith, e, some_unused)) b1
      | inr none_unused ↦ moved c1 d _ _ all (some_inj (ground (arith, e, none_unused))) refl b1
    ]

-- The pages and the grant of an extent are off the accounts.
freed-Balanced :
    (c : Cache) (nr_pages lost_grant out all : ℕ)
    → nr_pages ≤ c.cl_dirty_pages
    → lost_grant ≤ out
    → Balanced c out all
    → Balanced
        (record c {
          obd_dirty_pages = sub_u64 c.obd_dirty_pages nr_pages;
          cl_dirty_pages = sub_u64 c.cl_dirty_pages nr_pages;
          cl_lost_grant = add_u64 c.cl_lost_grant lost_grant;
        })
        (out - lost_grant)
        all
freed-Balanced c nr_pages lost_grant out all h k b = record {
  total = ground (arith, b.total, b.all_fit);
  all_fit = b.all_fit;
  within = ground (arith, b.within, b.own_part, b.all_in_word, b.max_fits);
  all_in_word = ground (arith, b.own_part, b.all_in_word, b.max_fits);
  own_part = ground (arith, b.own_part, b.all_in_word, b.max_fits);
  max_fits = b.max_fits;
}

osc_free_grant-Balanced :
    (c d : Cache) (nr_pages lost_grant out all : ℕ)
    → nr_pages ≤ c.cl_dirty_pages
    → lost_grant ≤ out
    → AllWait c c.cl_cache_waiters
    → osc_free_grant c nr_pages lost_grant ≡ some d
    → Balanced c out all
    → Balanced d (out - lost_grant) all
unfolding osc_free_grant borrow_grant
osc_free_grant-Balanced c d nr_pages lost_grant out all h k wait e b =
    let c1 : Cache = record c {
      obd_dirty_pages = sub_u64 c.obd_dirty_pages nr_pages;
      cl_dirty_pages = sub_u64 c.cl_dirty_pages nr_pages;
      cl_lost_grant = add_u64 c.cl_lost_grant lost_grant;
    } in
    let b1 = freed-Balanced c nr_pages lost_grant out all h k b in
    let c2 : Cache = borrow_grant c1 in
    let waiters : c2.cl_cache_waiters ≡ c.cl_cache_waiters = ground arith in
    osc_wake_cache_waiters-Balanced c2 d _ all
      (rw waiters (AllWait-same c c2 c.cl_cache_waiters (ground arith) wait)) e
      (borrow_grant-Balanced c1 _ all b1)

announce-Balanced :
    (l : RpcLimits) (c d : Cache) (oa : Obdo) (out all : ℕ)
    → c.cl_lost_grant < 2 ^ 32
    → osc_announce_cached l false c ≡ some (d, oa)
    → Balanced c out all
    → Balanced d (out + oa.o_dropped) all
unfolding osc_announce_cached
announce-Balanced l c d oa out all small e b =
    let same : d ≡ record c { cl_lost_grant = 0 } = ground (arith, e) in
    let dropped : oa.o_dropped ≡ c.cl_lost_grant % 2 ^ 32 = ground (arith, e) in
    moved (record c { cl_lost_grant = 0 }) d (out + c.cl_lost_grant) (out + oa.o_dropped) all same
      (omega (arith, dropped)) (regrant-Balanced c _ _ _ out _ all (omega (arith, b.total)) b)

-- Each step keeps the accounts balanced.
pub Step-Balanced :
    (c d : Cache) (out out' all : ℕ) → Step c out d out' → Balanced c out all → Balanced d out' all
unfolding osc_exit_cache update_grant osc_shrink_grant_local
Step-Balanced c d out out' all (reserve bytes e e') b =
    moved _ d out out' all e e' (osc_reserve_grant-Balanced c bytes out all b)
Step-Balanced c d out out' all (enter oap bytes transient entered free e e') b =
    let (r, step, tried) = osc_enter_cache_try-Enters c oap bytes transient out all b free in
    let same : (d, entered) ≡ r = some_inj (sym e ∙ step) in
    let br : Balanced r.0 out all = elim tried [
      | inl (_, entry) ↦ Entered-Balanced c r.0 oap bytes out all entry b
      | inr (_, unchanged) ↦ moved c r.0 out out all unchanged refl b
    ] in
    moved r.0 d out out' all (ap (λ (p : Cache × Bool). p.0) same) e' br
Step-Balanced c d out out' all (exit oap held e e') b =
    moved _ d out out' all e e' (osc_release_write_grant-Balanced c oap out all held b)
Step-Balanced c d out out' all (unreserve reserved unused h k wait e e') b =
    moved d d _ out' all refl e'
      (osc_unreserve_grant-Balanced c d reserved unused out all h k wait e b)
Step-Balanced c d out out' all (free_extent nr_pages lost_grant h k wait e e') b =
    moved d d _ out' all refl e'
      (osc_free_grant-Balanced c d nr_pages lost_grant out all h k wait e b)
Step-Balanced c d out out' all (announce l oa small e e') b =
    moved d d _ out' all refl e' (announce-Balanced l c d oa out all small e b)
Step-Balanced c d out out' all (update grant h e e') b =
    moved _ d _ out' all e e'
      (regrant-Balanced c _ _ _ out _ all (ground (arith, b.total, b.all_fit)) b)
Step-Balanced c d out out' all (shrink oa e e') b =
    moved _ d _ out' all e e'
      (regrant-Balanced c _ _ _ out _ all (ground (arith, b.total, b.all_fit)) b)
Step-Balanced c d out out' all (other_clients pages own word e e') b =
    moved (record c { obd_dirty_pages = pages }) d out out' all e e'
      (record {
        total = b.total;
        all_fit = b.all_fit;
        within = b.within;
        all_in_word = word;
        own_part = own;
        max_fits = b.max_fits;
      })
