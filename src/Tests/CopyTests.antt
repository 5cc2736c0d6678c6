-- ===== src/Tests/CopyTests.antt =====
-- File.cc, Copy: the theorem on a concrete disk, and what a short write does.
use ip_utils.Base.{
  ◌≡◌, refl, ap, none, some, [], ◌++◌, arith, Bytes, codes, length, take, drop, take-append-drop,
  min,
}
use ip_utils.ErrorHandler.{no_error}
use ip_utils.File.Copies.{write_chunk, copy_loop, Disk, Ran}
use ip_utils.Tests.NetTests.{take-nil}
use ip_utils.File.Copies.Short.{write_chunk_endless}
use ip_utils.File.Copies.Whole.{copy_loop-Copies, IsWhole, Wrote}

-- What is left of the one file, and what the other one has.
record Two : Type 0 where
  old : Bytes
  copy : Bytes

abbrev disk : Disk Two
disk = record {
  read = λ k from n. (record k { old = drop n k.old }, some (take n k.old));
  write = λ k to bs. (record k { copy = k.copy ++ bs }, some (length bs));
  report = λ k. [];
}

abbrev whole_disk : IsWhole disk
whole_disk = record {
  pending = λ k from. k.old;
  out = λ k to. k.copy;
  reads = λ k from n.
      (take n k.old, refl, take-append-drop n k.old, λ h e. take-nil n k.old h e, λ to. refl);
  writes = λ k to bs. (refl, refl, λ from. refl);
}

abbrev two : Two
two = record { old = codes "payload"; copy = [] }

copy_loop-Copies_example :
    (r : Ran Two) × (copy_loop disk 8 2 two no_error 3 (some 4) ≡ some r)
    × Wrote disk whole_disk two no_error (some 4) (codes "payload") r
copy_loop-Copies_example =
    copy_loop-Copies disk whole_disk 8 0 two no_error 3 (some 4) (omega arith)

-- A disk that takes one byte at a time.
abbrev slow_disk : Disk Two
slow_disk = record disk {
  write = λ k to bs. (record k { copy = k.copy ++ take 1 bs }, some (min 1 (length bs)));
}

write_chunk_endless_example : write_chunk slow_disk 9 two no_error (some 4) (codes "ab") 0 ≡ none
write_chunk_endless_example =
    write_chunk_endless slow_disk (λ k to x xs. ap some (omega arith)) 9 two no_error (some 4) 97 98
      []
