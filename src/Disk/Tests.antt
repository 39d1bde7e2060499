-- ===== src/Disk/Tests.antt =====
-- Instances of the theorems on the keys of the disk store's rows.
use dash_router.Base.{◌≡◌, ◌≢◌, ◌↔◌, [], ◌∷◌, refl, arith}
use Prim.Native.Nat.Ordering.{gt}
use dash_router.Disk.{to_be_bytes, array_key, u32_key, u8_key, row_key, log_bounds, compare_bytes}
use dash_router.Disk.Keys.{RoundTrips, row_key-decodes}
use dash_router.Disk.Bounds.{log_bounds-brackets}

row_key-decodes_example :
    RoundTrips (array_key 2) (7 ∷ 255 ∷ []) 70000
    × RoundTrips u32_key 300 70000
    × RoundTrips u8_key 9 70000
row_key-decodes_example = row_key-decodes (7 ∷ 255 ∷ []) 300 9 70000 (omega arith) (omega arith)

log_bounds-brackets_example :
    ((compare_bytes (log_bounds u32_key 300).0 (row_key u32_key 301 5) ≢ gt)
      × (compare_bytes (row_key u32_key 301 5) (log_bounds u32_key 300).1 ≢ gt))
    ↔ (u32_key.write_key 300 ≡ u32_key.write_key 301)
unfolding u32_key to_be_bytes
log_bounds-brackets_example = log_bounds-brackets u32_key 300 301 5 refl
