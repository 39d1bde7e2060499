-- ===== src/Storage/Machines/Equal.antt =====
-- `==` on `LogRanges`, as derived.
use dash_router.Base.{ℕ, Bool, true, false, ◌&&◌, [], ◌∷◌, ◌==◌}
use dash_router.BtreeMap.{BtreeMap}
use dash_router.Ranges.{Ranges}
use dash_router.LogRanges.{LogRanges}

pub ranges_eq : Ranges → Ranges → Bool
ranges_eq [] [] = true
ranges_eq (x ∷ xs) (y ∷ ys) = (x == y) && ranges_eq xs ys
ranges_eq _ _ = false

pub map_eq : {V : Type 0} → (V → V → Bool) → BtreeMap ℕ V → BtreeMap ℕ V → Bool
map_eq eq [] [] = true
map_eq eq ((k, v) ∷ m) ((j, w) ∷ n) = (k == j) && (eq v w && map_eq eq m n)
map_eq eq _ _ = false

pub log_ranges_eq : LogRanges → LogRanges → Bool
log_ranges_eq m n = map_eq (map_eq ranges_eq) m n
