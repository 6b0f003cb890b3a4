-- ===== src/Service/Timed.antt =====
-- The requests of a service that wait for their deadlines, in source/build/metric/service.c: lists
-- of requests by the remainder of their deadline (`scp_at_array`, set up in
-- `ptlrpc_service_part_init`), from which `ptlrpc_at_check_timed` takes those that are due for an early reply.
-- A request is found in a list by its number. The clock, the margin and the timer's setting
-- (`ptlrpc_at_set_timer`) are arguments; the sending of the replies follows the part modelled here.
pub mod Lists
pub mod Visits
pub mod Sweep
pub mod Nearest
pub mod Due
pub mod Place
pub mod Add
mod Tests
use lustre_tools.Base.{
  ℕ, zero, suc, ◌+◌, ◌-◌, ◌%◌, ◌^◌, Bool, true, false, not, ◌||◌, Option, none, some, List, [], ◌∷◌,
  ◌++◌, ltb, leb, ◌==◌, if◌then◌else◌, ◌>>=◌, lassert, update,
}

-- `is_timed` is whether rq_timed_list is on a list.
pub record TimedRequest : Type 0 where
  pub rq_xid : ℕ
  pub rq_deadline : ℕ
  pub rq_at_index : ℕ
  pub rq_no_reply : Bool
  pub has_at_support : Bool
  pub rq_refcount : ℕ
  pub is_timed : Bool

-- `paa_deadline` is none for -1.
pub record AtArray : Type 0 where
  pub paa_size : ℕ
  pub paa_count : ℕ
  pub paa_deadline : Option ℕ
  pub paa_reqs_count : ℕ → ℕ
  pub paa_reqs_array : ℕ → List TimedRequest

-- The counts are words of 32 bits.
abbrev pub inc32 : ℕ → ℕ
inc32 n = (n + 1) % 2 ^ 32

abbrev pub sub32 : ℕ → ℕ → ℕ
sub32 a b = (a + 2 ^ 32 - b) % 2 ^ 32

abbrev pub rev_onto : List TimedRequest → List TimedRequest → List TimedRequest
rev_onto [] ys = ys
rev_onto (x ∷ xs) ys = rev_onto xs (x ∷ ys)

-- From the end of the list to the first request whose deadline is no later: the new one stands behind
-- it. `passed` are those that the search has passed.
unfoldable pub search_back :
    TimedRequest → List TimedRequest → List TimedRequest → List TimedRequest
search_back req [] passed = req ∷ passed
search_back req (rq ∷ before) passed =
    let rest = search_back req before (rq ∷ passed) in
    if leb rq.rq_deadline req.rq_deadline then rev_onto (rq ∷ before) (req ∷ passed) else rest

-- Whether the new deadline is the nearest.
abbrev pub is_nearer : Option ℕ → ℕ → Bool
is_nearer none deadline = false
is_nearer (some d) deadline = ltb deadline d

pub data AddResult : Type 0 where
  skipped : AddResult
  no_support : AddResult
  fault : AddResult
  added : AtArray → TimedRequest → AddResult

unfoldable pub add_at : AtArray → TimedRequest → ℕ → AtArray
add_at a req index =
    let l = a.paa_reqs_array index in
    let placed =
      if ltb 0 (a.paa_reqs_count index) then search_back req (rev_onto l []) [] else req ∷ l in
    let count = inc32 a.paa_count in
    record a {
      paa_reqs_array = update a.paa_reqs_array index placed;
      paa_reqs_count = update a.paa_reqs_count index (inc32 (a.paa_reqs_count index));
      paa_count = count;
      paa_deadline =
          if (count == 1) || is_nearer a.paa_deadline req.rq_deadline
          then some req.rq_deadline
          else a.paa_deadline;
    }

-- `at_off` is AT_OFF; a request that is on a list fails the assertion.
unfoldable pub ptlrpc_at_add_timed : Bool → AtArray → TimedRequest → AddResult
ptlrpc_at_add_timed at_off a req =
    if at_off || req.rq_no_reply
    then skipped
    else if not req.has_at_support
    then no_support
    else if req.is_timed
    then fault
    else let index = req.rq_deadline % a.paa_size in
      let req' = record req { rq_at_index = index; is_timed = true } in
      added (add_at a req' index) req'

-- `list_del` of the request with this number.
unfoldable pub without : ℕ → List TimedRequest → List TimedRequest
without xid [] = []
without xid (rq ∷ rqs) = let rest = without xid rqs in if rq.rq_xid == xid then rqs else rq ∷ rest

unfoldable pub unlinked : AtArray → TimedRequest → AtArray
unlinked a req =
    let i = req.rq_at_index in
    record a {
      paa_reqs_array = update a.paa_reqs_array i (without req.rq_xid (a.paa_reqs_array i));
      paa_reqs_count = update a.paa_reqs_count i (sub32 (a.paa_reqs_count i) 1);
      paa_count = sub32 a.paa_count 1;
    }

unfoldable pub ptlrpc_at_remove_timed : AtArray → TimedRequest → Option AtArray
ptlrpc_at_remove_timed a req = lassert req.is_timed >>= λ _. some (unlinked a req)

-- The state of the loops: the array, the requests that are taken, and the earliest deadline of those
-- that are left.
pub record Scan : Type 0 where
  pub at_array : AtArray
  pub work_list : List TimedRequest
  pub deadline : Option ℕ

abbrev pub earlier : Option ℕ → ℕ → Option ℕ
earlier none d = some d
earlier (some e) d = if ltb d e then some d else some e

-- `atomic_inc_not_zero` on the reference count, and onto the list of work.
unfoldable pub put_to_work : TimedRequest → List TimedRequest → List TimedRequest
put_to_work rq work =
    if ltb 0 rq.rq_refcount then record rq { rq_refcount = rq.rq_refcount + 1 } ∷ work else work

-- A request whose last reference is gone is removed and not taken.
unfoldable pub take_request : Scan → TimedRequest → Option Scan
take_request s rq = ptlrpc_at_remove_timed s.at_array rq >>= λ a.
    some (record s { at_array = a; work_list = put_to_work rq s.work_list })

-- The requests of a list up to the first that is due later than `limit`.
unfoldable pub scan_list : ℕ → List TimedRequest → Scan → Option Scan
scan_list limit [] s = some s
scan_list limit (rq ∷ rqs) s =
    if ltb limit rq.rq_deadline
    then some (record s { deadline = earlier s.deadline rq.rq_deadline })
    else take_request s rq >>= λ s1. scan_list limit rqs s1

-- `while (count > 0)`, on fuel; `none` is a loop that goes on, or a failed assertion.
unfoldable pub scan_loop : ℕ → ℕ → ℕ → ℕ → Scan → Option Scan
scan_loop limit fuel index zero s = some s
scan_loop limit zero index (suc count) s = none
scan_loop limit (suc fuel) index (suc count) s =
    let here = s.at_array.paa_reqs_array index in
    let count' = sub32 (suc count) (s.at_array.paa_reqs_count index) in
    let index' = if leb s.at_array.paa_size (index + 1) then 0 else index + 1 in
    scan_list limit here s >>= λ s1. scan_loop limit fuel index' count' s1

-- ptlrpc_at_check_timed from the point where the nearest deadline is within the margin, to the list
-- of the requests that get an early reply; `limit` is now + at_early_margin.
unfoldable pub take_due : ℕ → AtArray → Option (AtArray × List TimedRequest)
take_due limit a = a.paa_deadline >>= λ first.
    scan_loop limit a.paa_size (first % a.paa_size) a.paa_count
      (record { at_array = a; work_list = []; deadline = none })
    >>= λ s. some (record s.at_array { paa_deadline = s.deadline }, s.work_list)

abbrev pub is_past : ℕ → Option ℕ → Bool
is_past limit none = false
is_past limit (some first) = ltb limit first

-- `at_check` is scp_at_check, which the timer sets.
unfoldable pub ptlrpc_at_check_timed : Bool → ℕ → AtArray → Option (AtArray × List TimedRequest)
ptlrpc_at_check_timed at_check limit a =
    if not at_check || (a.paa_count == 0)
    then some (a, [])
    else if is_past limit a.paa_deadline
    then some (a, [])
    else take_due limit a
