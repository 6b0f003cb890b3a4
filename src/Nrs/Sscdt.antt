-- ===== src/Nrs/Sscdt.antt =====
-- code/nrs_sscdt.c and code/lustre_nrs_sscdt.h: the policy that orders requests by time window, then
-- by the peer's address. The binary heap of libcfs is a parameter.
-- `none` is a fault: a division by zero, a failed LASSERT or a NULL pointer.
pub mod Order
pub mod Drain
mod Tests
use lustre_tools.Base.{
  ℕ, zero, suc, ◌+◌, ◌*◌, ◌/◌, ◌%◌, ◌^◌, Bool, true, false, not, List, [], ◌∷◌, Option, none, some,
  ℤ, ltb, ◌==◌, if◌then◌else◌, enomem, einval, success,
}

-- The fields of `struct ptlrpc_request` that the policy reads, and `st_sequence` of its
-- `struct nrs_sscdt_req`. `rq_nrq` is the node's pointer.
pub record Request : Type 0 where
  pub rq_nrq : ℕ
  pub rq_sent : ℕ
  pub nid : ℕ
  pub pid : ℕ
  pub st_sequence : ℕ

abbrev pub time_window : ℕ → Request → ℕ
time_window interval r = r.rq_sent * 1000 / interval

-- Whether the first request is above the second in the heap.
unfoldable pub sscdt_req_compare : ℕ → Request → Request → Option Bool
sscdt_req_compare interval e1 e2 =
    if interval == 0
    then none
    else if not (time_window interval e1 == time_window interval e2)
    then some (ltb e1.rq_sent e2.rq_sent)
    else if e1.nid == e2.nid
    then some (ltb e1.pid e2.pid)
    else some (ltb e1.nid e2.nid)

-- The operations of `cfs_binheap_t` over requests.
pub record Binheap (H : Type 0) : Type 0 where
  pub create : Option H
  pub is_empty : H → Bool
  pub root : H → Option Request
  pub insert : H → Request → ℤ × H
  pub remove : H → Request → H

-- `interval` is a global variable; `pol_private` holds `struct nrs_sscdt_head`.
pub record Policy (H : Type 0) : Type 0 where
  pub interval : ℕ
  pub st_binheap : H
  pub st_sequence : ℕ

-- The codes of `enum nrs_ctl_sscdt`; `other` is any other code.
pub data Ctl : Type 0 where
  rd_interval : Ctl
  wr_interval : Ctl
  other : Ctl

module _ {H : Type 0} (heap : Binheap H) where
  -- `alloc` says whether the head's memory could be had.
  unfoldable pub nrs_sscdt_start : Bool → ℕ → ℤ × Option (Policy H)
  nrs_sscdt_start alloc interval = if not alloc then (enomem, none) else elim heap.create [
    | none ↦ (enomem, none)
    | some h ↦ (success, some (record { interval = interval; st_binheap = h; st_sequence = 1 }))
  ]

  unfoldable pub nrs_sscdt_stop : Policy H → Option (Unit {0})
  nrs_sscdt_stop p = if heap.is_empty p.st_binheap then some tt else none

  -- The code, the policy and the 64-bit word at `arg`; the variable takes the word's lower half.
  unfoldable pub nrs_sscdt_ctl : Policy H → Ctl → ℕ → ℤ × Policy H × ℕ
  nrs_sscdt_ctl p rd_interval arg = (success, p, p.interval)
  nrs_sscdt_ctl p wr_interval arg = (success, record p { interval = arg % 2 ^ 32 }, arg)
  nrs_sscdt_ctl p other arg = (einval, p, arg)

  unfoldable pub nrs_sscdt_req_get : Policy H → Bool → Option Request × Policy H
  nrs_sscdt_req_get p peek = elim (heap.root p.st_binheap) [
    | none ↦ (none, p)
    | some r ↦
        if peek then (some r, p) else (some r, record p { st_binheap = heap.remove p.st_binheap r })
  ]

  -- The request is in the heap before it has its sequence number, which the heap does not read.
  unfoldable pub nrs_sscdt_req_add : Policy H → Request → ℤ × Policy H × Request
  nrs_sscdt_req_add p nrq =
      let (rc, h) = heap.insert p.st_binheap nrq in
      (
        rc,
        record p { st_binheap = h; st_sequence = (p.st_sequence + 1) % 2 ^ 64 },
        record nrq { st_sequence = p.st_sequence },
      )

  unfoldable pub nrs_sscdt_req_del : Policy H → Request → Policy H
  nrs_sscdt_req_del p nrq = record p { st_binheap = heap.remove p.st_binheap nrq }

  -- A service thread that takes the requests one after the other, `fuel` at most.
  unfoldable pub drain : ℕ → Policy H → List Request
  drain zero p = []
  drain (suc fuel) p =
      let rest = drain fuel (nrs_sscdt_req_get p false).1 in
      elim (nrs_sscdt_req_get p false).0 [ none ↦ [] | some r ↦ r ∷ rest ]

  -- Requests that are added one after the other.
  unfoldable pub add_all : Policy H → List Request → Policy H
  add_all p [] = p
  add_all p (r ∷ rs) = add_all (nrs_sscdt_req_add p r).1 rs
