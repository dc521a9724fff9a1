-- ===== src/Library/Labels/Bounds.antt =====
-- The ranges of the numbers in the labels of web/src/features/library/time.ts and image.ts.
use linktheca.Prelude.{ℕ, zero, suc, ◌+◌, ◌*◌, ◌%◌, ◌≤◌, ◌<◌, ◌≡◌, ◌∙◌, refl, arith}
use linktheca.Library.Labels.{pos, negsuc, reading_minutes, bucket}

-- The minutes are at least 1, and else within half a minute of the seconds, halves rounded up.
reading_minutes_lem :
    (seconds : ℕ)
    → (1 ≤ reading_minutes seconds)
      × (60 * reading_minutes seconds ≤ seconds + 60)
      × (seconds < 60 * reading_minutes seconds + 30)
unfolding reading_minutes
reading_minutes_lem s = (ground arith, ground arith, ground arith)

-- The class of `pos (suc n)` by the number it stands for.
bucket_at : (n m : ℕ) → m ≡ suc n → bucket (pos m) ≡ (n % 10 + 10) % 10
unfolding bucket
bucket_at n m e = rw e refl

-- Every number has one of ten classes, and numbers of one sign that are ten apart have the same.
bucket_lem :
    (n : ℕ)
    → (bucket (pos n) < 10)
      × (bucket (negsuc n) < 10)
      × (bucket (pos (n + 10)) ≡ bucket (pos n))
      × (bucket (negsuc (n + 10)) ≡ bucket (negsuc n))
unfolding bucket
bucket_lem zero = (omega arith, omega arith, refl, refl)
bucket_lem (suc n) = (
  omega arith,
  omega arith,
  bucket_at (n + 10) (suc n + 10) (omega arith) ∙ omega arith,
  omega arith,
)
