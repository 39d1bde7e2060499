-- ===== src/LogRanges/Tests.antt =====
-- Instances of the theorems on maps with a marker under a populated channel.
use dash_router.Base.{◌≡◌, ◌&&◌, not, [], ◌∷◌, refl, arith}
use dash_router.Base.Order.{nat_ord}
use dash_router.Log.{Log}
use dash_router.LogRanges.{LogRanges, IsValid, contains, union, intersection, difference, remove}
use dash_router.LogRanges.Shape.{operations-IsValid}
use dash_router.LogRanges.Sets.{contains-difference_log}

-- Author 2 is a known-but-empty marker.
abbrev left : LogRanges
left = (1, (1, 0 ∷ 3 ∷ []) ∷ (2, []) ∷ []) ∷ (4, (1, 7 ∷ []) ∷ []) ∷ []

left-IsValid : IsValid left
left-IsValid = record {
  sorted = (refl, tt);
  channels = (
    record { sorted = (refl, tt); nonempty = λ e. cc; ranges = omega arith },
    (record { sorted = tt; nonempty = λ e. cc; ranges = omega arith }, tt),
  );
}

abbrev right : LogRanges
right = (1, (1, 3 ∷ 5 ∷ []) ∷ []) ∷ []

right-IsValid : IsValid right
right-IsValid = record {
  sorted = tt;
  channels = (record { sorted = tt; nonempty = λ e. cc; ranges = omega arith }, tt);
}

abbrev log11 : Log
log11 = record { channel = 1; author = 1 }

contains-difference_log_example :
    contains (difference left right) log11 2
    ≡ (contains left log11 2 && not (contains right log11 2))
contains-difference_log_example =
    contains-difference_log left right left-IsValid right-IsValid log11 2

operations-IsValid_example :
    IsValid (remove left log11).0
    × IsValid (union left right)
    × IsValid (intersection left right)
    × IsValid (difference left right)
operations-IsValid_example = operations-IsValid left right log11 left-IsValid right-IsValid
