-- ===== src/Kv/Samples.antt =====
-- Test data for the components of kv/version: two files, and a version of two levels that has one
-- of them in each.
use lindb.Base.{ℕ-Key, [], ◌∷◌, arith, lookup-nil, refl}
use lindb.Kv.Level.{FileMeta}
use lindb.Kv.Version.{Version}
use lindb.Kv.Version.Files.{IsVersion}

abbrev pub low_file : FileMeta
low_file = record { file_number = 4; min_key = 10; max_key = 20; file_size = 100 }

abbrev pub up_file : FileMeta
up_file = record { file_number = 3; min_key = 15; max_key = 30; file_size = 200 }

abbrev pub new_file_meta : FileMeta
new_file_meta = record { file_number = 7; min_key = 1; max_key = 2; file_size = 50 }

abbrev pub two_levels : Version
two_levels = record {
  id = 5;
  num_of_levels = 2;
  levels = record { files = (4, low_file) ∷ [] } ∷ record { files = (3, up_file) ∷ [] } ∷ [];
}

pub two_levels-IsVersion : IsVersion two_levels
two_levels-IsVersion = record {
  sized = refl;
  positive = omega arith;
  small = omega arith;
  keyed = ((refl, lookup-nil 4, tt), ((refl, lookup-nil 3, tt), tt));
}
