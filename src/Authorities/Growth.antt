-- ===== src/Authorities/Growth.antt =====
-- The stores that the steps of app/services/ca_service.py reach from one without rows.
use chancery.Prelude.{ℕ, ◌+◌, ◌≤◌, ◌≡◌, ap, some, [], map, inl, inr}
use chancery.Authorities.Types.{Store}
use chancery.Authorities.Create.{Env}
use chancery.Authorities.Steps.{
  Step, Rows, as_before, one_changed, Change, new_root, new_intermediate, changed, Change-of,
}
use chancery.Authorities.Tree.{
  Node, node, Newest, Tree-Newest, WellFormed, Kept, UpTo, depth, saved-Kept, Kept-WellFormed,
  added-WellFormed, clamp_path-Budget, map-Elem,
}

pub data Reachable (e : Env) : Store → Type 0 where
  empty :
      (n m : ℕ)
      → Reachable e (record { cas = []; alternates = []; next_ca = n; next_alternate = m })
  grown : {s after : Store} → Reachable e s → Step e s after → Reachable e after

pub Rows-Kept : (s after : Store) → Newest (map node s.cas) → Rows s after → Kept s after
Rows-Kept s after w (as_before e n) = (ap (map node) e, n)
Rows-Kept s after w (one_changed c d m same name revoked e n) = saved-Kept c d s after w m same e n

Change-WellFormed : (e : Env) (s after : Store) → WellFormed s → Change e s after → WellFormed after
Change-WellFormed e s after w (new_root d r c i) =
    rw (i.stored) (added-WellFormed s c w i.new_id (inl i.top))
Change-WellFormed e s after w (new_intermediate d r parent c m i) =
    let budget = clamp_path-Budget parent.path_length r.path_length c.path_length i.budget in
    rw (i.stored) (
      added-WellFormed s c w i.new_id (inr (node parent, map-Elem parent s.cas m, i.below, budget)))
Change-WellFormed e s after w (changed r) =
    Kept-WellFormed s after w (Rows-Kept s after (Tree-Newest (map node s.cas) w.tree) r)

pub Reachable-WellFormed : (e : Env) (s : Store) → Reachable e s → WellFormed s
Reachable-WellFormed e s (empty n m) = record { below_next = tt; tree = tt }
Reachable-WellFormed e s (grown {s = before} r step) =
    Change-WellFormed e before s (Reachable-WellFormed e before r) (Change-of e before s step)

-- However the store grew, an authority that is so many levels below one with a path length has a
-- path length itself, and the levels and its path length do not exceed the upper one's.
pub path_length-bounds_depth :
    (e : Env) (s : Store) (c a : Node) (k n : ℕ)
    → Reachable e s
    → UpTo (map node s.cas) a c k
    → a.path_length ≡ some n
    → (m : ℕ) × (c.path_length ≡ some m) × (k + m ≤ n)
path_length-bounds_depth e s c a k n r path limit =
    depth (map node s.cas) c a k n (Reachable-WellFormed e s r).tree path limit
