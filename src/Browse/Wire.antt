-- ===== src/Browse/Wire.antt =====
-- browse_wire.go: the checks on a response of IEnumString::Next, enumNextReader.ReadSize and
-- enumNextResponse.UnmarshalNDR. The generated decoder is what reads the sizes and gives the
-- entries.
use gopcda.Prelude.{
  ℕ, ◌+◌, ◌≤◌, ◌≡◌, sym, subst, Bool, true, not, ◌&&◌, ◌||◌, List, [], ◌∷◌, length, ltb, leb, ◌==◌,
  ◌/◌, ◌%◌, ◌^◌, if◌then◌else◌, arith,
}
use gopcda.Errors.{message}
use gopcda.Result.{Result, ok, err, refuse, ◌>>=◌, ◌>>◌, >>=-ok}
use gopcda.Browse.{Batch, is_code}

-- enumNextReader: the requested count, the sizes read so far (zero before), and their number.
pub record EnumReader : Type 0 where
  pub requested : ℕ
  pub max_count : ℕ
  pub offset : ℕ
  pub actual : ℕ
  pub read : ℕ

abbrev pub new_reader : ℕ → EnumReader
new_reader requested = record {
  requested = requested;
  max_count = 0;
  offset = 0;
  actual = 0;
  read = 0;
}

-- r.sizes[r.read] = *size; r.read++
unfoldable pub store : ℕ → EnumReader → EnumReader
store size r =
    if r.read == 0
    then record r { max_count = size; read = 1 }
    else if r.read == 1
    then record r { offset = size; read = 2 }
    else record r { actual = size; read = r.read + 1 }

-- `invalid`, where `rest` is r.Len().
unfoldable pub invalid_sizes : ℕ → EnumReader → Bool
invalid_sizes rest r =
    ltb r.requested r.max_count
    || (leb 2 r.read && not (r.offset == 0))
    || (r.read == 3 && (ltb r.max_count r.actual || ltb (rest / 4) r.actual))

-- enumNextReader.ReadSize, after the reader below it gave `size` and left `rest` bytes.
unfoldable pub read_size : ℕ → ℕ → EnumReader → Result EnumReader
unfolding store invalid_sizes
read_size size rest r =
    if leb 3 r.read
    then ok r
    else if invalid_sizes rest (store size r)
    then err (message "IEnumString: invalid array counts (%d,%d,%d), requested %d")
    else ok (store size r)

-- The sizes that the decoder reads, one after another, with the bytes left after each.
unfoldable pub read_sizes : List (ℕ × ℕ) → EnumReader → Result EnumReader
unfolding read_size
read_sizes [] r = ok r
read_sizes ((size, rest) ∷ more) r = read_size size rest r >>= λ s. read_sizes more s

-- What the decoder gives: its error, or the entries, the fetched count and the HRESULT.
-- enumNextResponse.UnmarshalNDR
unfoldable pub enum_next_response : ℕ → Result Batch → Result Batch
enum_next_response requested decoded = do
  r ← decoded
  refuse (not (r.fetched == length r.values % 2 ^ 32) || ltb requested r.fetched)
      (message "IEnumString: fetched count does not match array")
  refuse (is_code 0 r.hresult && not (r.fetched == requested))
      (message "IEnumString: S_OK without a full batch")
  refuse (is_code 1 r.hresult && leb requested r.fetched)
      (message "IEnumString: S_FALSE without a partial batch")
  ok r

read_sizes-cons :
    (size rest : ℕ) (more : List (ℕ × ℕ)) (r s : EnumReader)
    → read_sizes ((size, rest) ∷ more) r ≡ ok s
    → (t : EnumReader) × (read_size size rest r ≡ ok t) × (read_sizes more t ≡ ok s)
unfolding read_sizes
read_sizes-cons size rest more r s h = >>=-ok (read_size size rest r) (λ t. read_sizes more t) h

abbrev reader_at : ℕ → ℕ → ℕ → ℕ → ℕ → EnumReader
reader_at requested most from count read = record {
  requested = requested;
  max_count = most;
  offset = from;
  actual = count;
  read = read;
}

read_size-first :
    (q most a : ℕ) (s : EnumReader)
    → read_size most a (new_reader q) ≡ ok s
    → (most ≤ q) × (reader_at q most 0 0 1 ≡ s)
unfolding read_size store invalid_sizes
read_size-first q most a s h = (ground (arith, h), ground (arith, h))

read_size-second :
    (q most from b : ℕ) (s : EnumReader)
    → read_size from b (reader_at q most 0 0 1) ≡ ok s
    → (from ≡ 0) × (reader_at q most from 0 2 ≡ s)
unfolding read_size store invalid_sizes
read_size-second q most from b s h = (ground (arith, h), ground (arith, h))

read_size-third :
    (q most from count rest : ℕ) (s : EnumReader)
    → read_size count rest (reader_at q most from 0 2) ≡ ok s
    → (count ≤ most) × (count ≤ rest / 4)
unfolding read_size store invalid_sizes
read_size-third q most from count rest s h = (ground (arith, h), ground (arith, h))

-- When the first three sizes that the decoder reads pass, the array it goes on to read has at most
-- as many elements as were requested, as the array announces and as four bytes each fit in the
-- buffer, and does not start behind its first element.
pub read_sizes-IsBounded :
    (requested most from count a b rest : ℕ) (more : List (ℕ × ℕ)) (r : EnumReader)
    → read_sizes ((most, a) ∷ (from, b) ∷ (count, rest) ∷ more) (new_reader requested) ≡ ok r
    → (most ≤ requested) × (from ≡ 0) × (count ≤ most) × (count ≤ rest / 4)
read_sizes-IsBounded requested most from count a b rest more r h =
    let one =
      read_sizes-cons most a ((from, b) ∷ (count, rest) ∷ more) (new_reader requested) r h in
    let first = read_size-first requested most a (one.0) (one.1) in
    let two = read_sizes-cons from b ((count, rest) ∷ more) (reader_at requested most 0 0 1) r (
      subst (λ s. read_sizes ((from, b) ∷ (count, rest) ∷ more) s ≡ ok r) (sym (first.1))
        (one.2)) in
    let second = read_size-second requested most from b (two.0) (two.1) in
    let three =
      read_sizes-cons count rest more (reader_at requested most from 0 2) r
        (subst (λ s. read_sizes ((count, rest) ∷ more) s ≡ ok r) (sym (second.1)) (two.2)) in
    let third = read_size-third requested most from count rest (three.0) (three.1) in
    (first.0, second.0, third.0, third.1)

mod_le : (n : ℕ) → n % 4294967296 ≤ n
mod_le n = omega arith

-- A response that passes and is S_OK is a full batch.
pub enum_next_response-full :
    (requested : ℕ) (decoded : Result Batch) (batch : Batch)
    → enum_next_response requested decoded ≡ ok batch
    → is_code 0 batch.hresult ≡ true
    → requested ≤ length batch.values
unfolding enum_next_response
enum_next_response-full requested (err e) batch h k = cc
enum_next_response-full requested (ok r) batch h k = ground (arith, h, k, mod_le (length r.values))
