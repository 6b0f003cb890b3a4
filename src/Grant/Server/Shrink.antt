-- ===== src/Grant/Server/Shrink.antt =====
-- A client gives grant back to the server (`osc_shrink_grant_to_target`).
use lustre_tools.Base.{
  ℕ, ◌+◌, ◌%◌, ◌^◌, ◌≤◌, ◌<◌, ◌≡◌, ◌≢◌, refl, Bool, true, Option, none, some, ◌⊎◌, inl, inr,
  Bool-cases, arith, ℤ, pos, eqb_ℤ, leb, ltb, success, enomem, if◌then◌else◌, sub_u64,
}
use lustre_tools.Grant.{Cache}
use lustre_tools.Grant.Ledger.{Balanced, regrant-Balanced}
use lustre_tools.Grant.Server.{
  RpcLimits, Obdo, rpc_bytes, osc_announce_cached, update_grant, osc_shrink_grant_to_target,
  bytes_of, undirty,
}

-- What the client keeps at least.
abbrev pub kept : RpcLimits → ℕ → ℕ
kept l target = if ltb target (rpc_bytes l) then rpc_bytes l else target

-- No other thread takes the lock in between.
abbrev pub alone : ℕ → Cache → Cache
alone i c = c

-- How a shrink ends: nothing is sent, or a message takes away what is above the target and what was lost,
-- or its sending fails, and only what was lost is away.
abbrev pub Shrinks : RpcLimits → Cache → ℕ → ℕ → ℕ → Cache × ℤ × Option Obdo → Type 0
Shrinks l c target out all (d, rc, none) =
    (d ≡ c) × ((c.cl_avail_grant ≤ kept l target) ⊎ (rc ≡ enomem))
Shrinks l c target out all (d, rc, some body) =
    (kept l target < c.cl_avail_grant)
    × (d.cl_lost_grant ≡ 0)
    × (body.o_grant + kept l target ≡ c.cl_avail_grant)
    × (body.o_dropped ≡ c.cl_lost_grant % 2 ^ 32)
    × (((rc ≡ success)
          × (d.cl_avail_grant ≡ kept l target)
          × Balanced d (out + body.o_grant + c.cl_lost_grant) all)
        ⊎ ((rc ≢ success)
            × (d.cl_avail_grant ≡ c.cl_avail_grant)
            × Balanced d (out + c.cl_lost_grant) all))

-- The message, and the client when it is sent.
abbrev message : RpcLimits → Cache → ℕ → Obdo
message l c target = record {
  o_dirty = bytes_of c.cl_dirty_pages;
  o_undirty = undirty l c % 2 ^ 32;
  o_grant = sub_u64 c.cl_avail_grant (kept l target);
  o_dropped = c.cl_lost_grant % 2 ^ 32;
  shrink_flag = true;
}

abbrev given : RpcLimits → Cache → ℕ → Cache
given l c target = record c { cl_avail_grant = kept l target; cl_lost_grant = 0 }

given-Balanced :
    (l : RpcLimits) (c : Cache) (target out all : ℕ)
    → Balanced c out all
    → kept l target < c.cl_avail_grant
    → Balanced (given l c target) (out + (message l c target).o_grant + c.cl_lost_grant) all
given-Balanced l c target out all b high =
    regrant-Balanced c _ _ _ out _ all (ground (arith, b.total, b.all_fit)) b

gives :
    (l : RpcLimits) (c : Cache) (target out all : ℕ)
    → Balanced c out all
    → kept l target < c.cl_avail_grant
    → (message l c target).o_grant + kept l target ≡ c.cl_avail_grant
gives l c target out all b high = ground (arith, b.total, b.all_fit)

-- A shrink that nobody interrupts returns, in a balanced state. If the available grant is not above the
-- target and the bytes of one request, or no memory is left, nothing changes and nothing is sent. If
-- the message is sent, the client keeps the greater of the two, and the rest is in the message, with
-- the lower 32 bits of the lost grant; if the sending fails, the client has its available grant again
-- and the lost grant is forgotten. The accounts of the client are balanced with what it gave away: what
-- it keeps and that, the lost grant in full, sum to what they did.
pub osc_shrink_grant_to_target-Shrinks :
    (l : RpcLimits) (allocated : Bool) (set_info : Obdo → ℤ) (c : Cache) (target out all : ℕ)
    → Balanced c out all
    → (r : Cache × ℤ × Option Obdo) × (osc_shrink_grant_to_target l alone allocated set_info c
          target
        ≡ some r)
      × Shrinks l c target out all r
unfolding osc_shrink_grant_to_target osc_announce_cached update_grant
osc_shrink_grant_to_target-Shrinks l allocated set_info c target out all b =
    elim (Bool-cases (leb c.cl_avail_grant (kept l target))) [
      | inl low ↦ ((c, success, none), ground (arith, low), (refl, inl (ground arith)))
      | inr high ↦ elim (Bool-cases allocated) [
        | inr failed ↦ ((c, enomem, none), ground (arith, high, failed), (refl, inr refl))
        | inl has_body ↦
            let body = message l c target in
            let d : Cache = given l c target in
            let bd = given-Balanced l c target out all b (ground arith) in
            elim (Bool-cases (eqb_ℤ (set_info body) (pos 0))) [
              | inl sent ↦ (
                (d, set_info body, some body),
                ground (arith, high, has_body, sent),
                (
                  ground arith,
                  refl,
                  gives l c target out all b (ground arith),
                  refl,
                  inl (ground (arith, sent), refl, bd),
                ),
              )
              | inr unsent ↦ (
                (update_grant d body.o_grant, set_info body, some body),
                ground (arith, high, has_body, unsent),
                (
                  ground arith,
                  refl,
                  gives l c target out all b (ground arith),
                  refl,
                  inr (
                    (λ e. ground (arith, unsent, e)),
                    ground (arith, b.total, b.all_fit),
                    regrant-Balanced c _ _ _ out _ all (ground (arith, b.total, b.all_fit)) b,
                  ),
                ),
              )
            ]
      ]
    ]
