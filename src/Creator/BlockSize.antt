-- ===== src/Creator/BlockSize.antt =====
-- `ComputeBlockSize` of src/commandline.cpp.
pub mod Search
pub mod Least
use par2cmdline_turbo.Prelude.{
  ℕ, zero, suc, ◌+◌, ◌-◌, ◌*◌, ◌/◌, ◌%◌, ◌^◌, bit_and, Bool, ◌==◌, ◌||◌, Option, none, some, List,
  [], ◌∷◌, ltb, leb, if◌then◌else◌, length,
}

-- `(filesize_cache.get(*i) + 3) / 4`
abbrev pub units : ℕ → ℕ
units filesize = (filesize + 3) % 2 ^ 64 / 4

-- `totalsize`
unfoldable pub total_units : ℕ → List ℕ → ℕ
total_units totalsize [] = totalsize
total_units totalsize (filesize ∷ rest) = total_units ((totalsize + units filesize) % 2 ^ 64) rest

-- The loops that add up `count`.
unfoldable pub count_blocks : ℕ → ℕ → List ℕ → ℕ
count_blocks size count [] = count
count_blocks size count (filesize ∷ rest) =
    count_blocks size ((count + (units filesize + size + 2 ^ 64 - 1) % 2 ^ 64 / size) % 2 ^ 64) rest

unfoldable pub largest_file : ℕ → List ℕ → ℕ
largest_file largestfilesize [] = largestfilesize
largest_file largestfilesize (filesize ∷ rest) =
    largest_file (if ltb largestfilesize filesize then filesize else largestfilesize) rest

-- The loop between the bounds: `size` and `count` behind it. `none` is for too little fuel.
unfoldable pub search_size : ℕ → ℕ → List ℕ → ℕ → ℕ → Option (ℕ × ℕ)
unfolding count_blocks
search_size zero blockcount files lower upper = none
search_size (suc fuel) blockcount files lower upper =
    let size = (lower + upper) % 2 ^ 64 / 2 in
    let count = count_blocks size 0 files in
    let above = search_size fuel blockcount files (size + 1) upper in
    let below = search_size fuel blockcount files lower size in
    if ltb blockcount count
    then (if leb upper (size + 1) then some (size + 1, count_blocks (size + 1) 0 files) else above)
    else (if ltb lower size then below else some (size, count))

-- The last tests
abbrev pub checked_size : Option (ℕ × ℕ) → Option ℕ
checked_size none = none
checked_size (some (size, count)) =
    if ltb 32768 count then none else if count == 0 then none else some (size * 4 % 2 ^ 64)

-- The bounds, and the loop between them.
unfoldable pub size_between : ℕ → ℕ → List ℕ → Option (ℕ × ℕ)
unfolding search_size
size_between totalsize blockcount files =
    let number = length files in
    let lower = totalsize / blockcount in
    let upper =
      ((totalsize + blockcount + 2 ^ 64 - number) % 2 ^ 64 + 2 ^ 64 - 1)
      % 2 ^ 64
      / (blockcount - number) in
    search_size (suc upper) blockcount files lower upper

-- `ComputeBlockSize`: `files` are the sizes of `extrafiles`; `none` is `return false`.
unfoldable pub compute_block_size : ℕ → ℕ → List ℕ → Option ℕ
unfolding total_units size_between largest_file
compute_block_size blocksize blockcount files =
    if ltb 0 blocksize
    then some blocksize
    else if ltb blockcount (length files)
    then none
    else if blockcount == length files
    then some (bit_and ((largest_file 0 files + 3) % 2 ^ 64) (2 ^ 64 - 4))
    else if ltb (total_units 0 files) blockcount
    then some 4
    else checked_size (size_between (total_units 0 files) blockcount files)
