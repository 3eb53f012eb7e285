-- ===== src/BufferPool/Open.antt =====
-- src/buffer_pool.cpp: the constructor, whose pool has every frame free.
use toy_relational_database.Prelude.{
  Option, arith, get_elem?, inl, inr, refl, replicate, some, suc, zero, ℕ, ◌<◌, ◌≡◌,
}
use toy_relational_database.Disk.{DiskManager}
use toy_relational_database.Wal.{WalManager}
use toy_relational_database.BufferPool.{Frame, empty_frame, count_down, find_frame, open_pool}
use toy_relational_database.BufferPool.Table.{InList, Once, Valid}

InList-count_down : (n f : ℕ) → InList f (count_down n) → f < n
unfolding count_down
InList-count_down zero f i = elim i [ ]
InList-count_down (suc n) f (inl e) = omega (arith, e)
InList-count_down (suc n) f (inr i) = let less = InList-count_down n f i in omega (arith, less)

count_down-Once : (n : ℕ) → Once (count_down n)
unfolding count_down
count_down-Once zero = tt
count_down-Once (suc n) =
    ((λ i. let less = InList-count_down n n i in omega (arith, less)), count_down-Once n)

get_elem?-replicate : (n f : ℕ) (x : Frame) → f < n → get_elem? (replicate n x) f ≡ some x
get_elem?-replicate zero f x h = let bad : ⊥ = omega (arith, h) in elim bad [ ]
get_elem?-replicate (suc n) zero x h = refl
get_elem?-replicate (suc n) (suc f) x h = get_elem?-replicate n f x (omega (arith, h))

pub open_pool-Valid :
    (n : ℕ) (disk : DiskManager) (wal : Option WalManager) → Valid (open_pool n disk wal)
unfolding open_pool find_frame
open_pool-Valid n disk wal = record {
  in_table = λ p f h. cc;
  in_lru = λ f i. elim i [ ];
  in_free = λ f i.
      (empty_frame, get_elem?-replicate n f empty_frame (InList-count_down n f i), refl, λ p h. cc);
  free_once = count_down-Once n;
}
