-- ===== src/Kv/Table.antt =====
-- The part of kv/table/builder.go that collects the pairs of an sst file, with `Write` of
-- pkg/bufioutil/bufio_writer.go. A file is the list of its pairs; whether a write succeeds is an
-- argument. The packed offsets and the bitmap of the keys are what `Close` makes of the pairs.
use lindb.Base.{
  ℕ, ◌+◌, Bool, true, false, not, ◌&&◌, List, [], ◌∷◌, ◌++◌, length, leb, if◌then◌else◌,
}
use lindb.Stream.Writer.{uvarint}

pub record Builder : Type 0 where
  pub file_number : ℕ
  pub size : ℕ
  pub offsets : List ℕ
  pub pairs : List (ℕ × List ℕ)
  pub min_key : ℕ
  pub max_key : ℕ
  pub first : Bool

-- `NewStoreBuilder` over a new file.
unfoldable pub new_store_builder : ℕ → Builder
new_store_builder file_number = record {
  file_number = file_number;
  size = 0;
  offsets = [];
  pairs = [];
  min_key = 0;
  max_key = 0;
  first = true;
}

-- The bytes that `bufioWriter.Write` adds: the length, in a buffer of 8 bytes, and the content.
unfoldable pub written_size : List ℕ → ℕ
written_size content = length (uvarint 8 (length content)) + length content

-- `Add`: a key that is not above the last one is passed over. `false` is a failed write.
unfoldable pub add : Bool → ℕ → List ℕ → Builder → Builder × Bool
add writes key value b =
    if not b.first && leb key b.max_key
    then (b, true)
    else if writes
    then (
      record {
        file_number = b.file_number;
        size = b.size + written_size value;
        offsets = b.offsets ++ b.size ∷ [];
        pairs = b.pairs ++ (key, value) ∷ [];
        min_key = if b.first then key else b.min_key;
        max_key = key;
        first = false;
      },
      true,
    )
    else (b, false)

-- `Count`: the keys are different, as each is above the one before.
unfoldable pub count : Builder → ℕ
count b = length b.pairs
