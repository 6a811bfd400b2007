-- ===== src/Tests/Uploads.antt =====
-- Uploads at concrete inputs: a node with a chain of hashes, and a store that remembers what it is
-- given.
use fractal_block_sync.Prelude.{
  ℕ, suc, ◌*◌, ◌%◌, ◌≤◌, ◌≡◌, refl, ap, arith, Bool, true, false, ◌||◌, none, List, [], ◌∷◌, ◌++◌,
  Bytes, Text, codes, text_eq, text_eq_refl, inr,
}
use fractal_block_sync.Errors.{ok, err, panic, at_block}
use fractal_block_sync.Hex
use fractal_block_sync.Upload.Services.{Provider, UploadConfig, Stable, IsLawful}
use fractal_block_sync.Pool
use fractal_block_sync.Text.{trim_space}
use fractal_block_sync.RangeIndex.{object_key, encode, start_height, key_text}
use fractal_block_sync.Text.Decimal.{decimal, decimal_010}
use fractal_block_sync.Upload.Windows
use fractal_block_sync.Upload.Windows.{end_of_range, next_range_start, end_of_range_lem}
use fractal_block_sync.Upload.Blocks.{upload_blocks_from, upload_block, uploaders, call, uploads}
use fractal_block_sync.Upload.Probes.{
  UploadProbeResult, find_upload_start, check_upload_probes, upload_blocks,
}
use fractal_block_sync.Upload.Probes.Ordered.{Probed, check_upload_probes-Probed}
use fractal_block_sync.Upload.Probes.Start.{find_upload_start-bounds}
use fractal_block_sync.Upload.Probes.Covered.{upload_blocks_lem}
use fractal_block_sync.Upload.Indexes.{upload_range_index_if_missing}
use fractal_block_sync.Upload.Once.{is_stable, ranges_from, upload_to, upload_once}
use fractal_block_sync.Upload.Once.Guarded.{upload_to-keeps}
use fractal_block_sync.Upload.Once.Ends.{ranges_from-enough}
use fractal_block_sync.Upload.Blocks.Answered.{IsAnswering, upload_blocks_from-ok}
use fractal_block_sync.Upload.Blocks.Returns.{upload_pool_returns}
use fractal_block_sync.Upload.Blocks.Complete.{upload_blocks_from-stores}

-- The hash at a height: 32 bytes, of which the last tells the height.
abbrev pub chain : ℕ → Text
chain h =
    codes "00000000000000000000000000000000000000000000000000000000000000"
    ++ Hex.encode (h % 256 ∷ [])

abbrev has : Text → List Text → Bool
has h [] = false
has h (x ∷ xs) = text_eq h x || has h xs

pub record Store : Type 0 where
  pub blocks : List Text
  pub indexes : List (Text × Bytes)
  pub clock : ℕ

abbrev pub world : Provider
world = record {
  State = Store;
  choose = λ s. (s.clock * 7, record s { clock = suc s.clock });
  ctx_error = λ s. none;
  get_block_count = λ s. (ok 9, s);
  get_block_hash = λ h s. (ok (chain h), s);
  get_block_raw_hex = λ h s. (ok (codes "00\n"), s);
  block_exists = λ h s. (ok (has h s.blocks), s);
  object_exists = λ k s. (ok false, s);
  put_block = λ h d s. (ok tt, record s { blocks = h ∷ s.blocks });
  put_range_index = λ k d s. (ok tt, record s { indexes = (k, d) ∷ s.indexes });
}

abbrev Stored : Text → Store → Type 0
Stored h s = has h s.blocks ≡ true

keeps_more : (a b : Bool) → b ≡ true → (a || b) ≡ true
keeps_more true b e = refl
keeps_more false b e = e

keeps : (h : Text) → Stable world (Stored h)
keeps h = record {
  by_choose = λ s p. p;
  by_count = λ s p. p;
  by_hash = λ n s p. p;
  by_raw = λ k s p. p;
  by_block = λ k s p. p;
  by_object = λ k s p. p;
  by_put = λ k d s p. keeps_more (text_eq h k) _ p;
}

pub same_text : (a b : Text) → ok a ≡ ok b → b ≡ a
same_text a b e = cc

same_bool : (a b : Bool) → ok a ≡ ok b → a ≡ b
same_bool a b e = cc

lawful : IsLawful world chain Stored
lawful = record {
  hash_reply = λ h s e. same_text _ _ e;
  found = λ h s e. same_bool _ _ e;
  put = λ h d s e. rw (text_eq_refl h) refl;
  kept = keeps;
}

abbrev pub empty : Store
empty = record { blocks = []; indexes = []; clock = 0 }

pub after : {A B : Type 0} (r : A × B) {a : A} → r.0 ≡ a → r ≡ (a, r.1)
after (x, s) e = ap (λ y. (y, s)) e

uploaded : (upload_blocks_from world 3 6 3 empty).0 ≡ ok 4
unfolding upload_blocks_from text_eq Pool.run Pool.moves Windows.heights_between Pool.idle_slots
    Pool.perform Pool.pick Pool.has_returned call Hex.decode trim_space Hex.hex_value Hex.encode
    Hex.hex_digit uploads
uploaded = refl

answering : IsAnswering world
unfolding Hex.decode Hex.hex_value trim_space
answering = record {
  calm = λ s. refl;
  hash = λ h s. (chain h, refl);
  exists = λ t s. (_, refl);
  raw = λ t s. (codes "00\n", 0 ∷ [], refl, refl);
  put = λ t d s. refl;
}

upload_blocks_from-ok_example : (n : ℕ) × ((upload_blocks_from world 3 900 4 empty).0 ≡ ok n)
upload_blocks_from-ok_example = upload_blocks_from-ok world answering 3 900 4 empty

-- A store that refuses to take a block stops the upload with its error.
abbrev full_world : Provider
full_world = record world { put_block = λ h d s. (err panic, s) }

refused :
    (upload_blocks_from full_world 3 6 1 empty).0
    ≡ err (at_block (codes "upload block") (chain 3) 3 panic)
unfolding upload_blocks_from Windows.heights_between upload_block Hex.decode trim_space
    Hex.hex_value
refused = refl

upload_blocks_from-stores_example : Stored (chain 5) (upload_blocks_from world 3 6 3 empty).1
upload_blocks_from-stores_example =
    upload_blocks_from-stores world chain Stored lawful 3 6 3 empty (omega arith)
      (after (upload_blocks_from world 3 6 3 empty) uploaded) 5 (omega arith) (omega arith)

-- A store with the two probes of the first 200 heights and no other block.
abbrev sparse : Store
sparse = record { blocks = chain 0 ∷ chain 100 ∷ []; indexes = []; clock = 0 }

-- The search passes over the heights from 1 to 99, whose blocks are missing.
gap : (find_upload_start world 0 199 100 2 sparse).0 ≡ ok 100
unfolding find_upload_start Windows.upload_probe_heights Pool.run Pool.moves Pool.idle_slots
    Pool.perform Pool.pick Pool.has_returned text_eq Hex.encode Hex.hex_digit
    Windows.final_upload_window_start
gap = refl

gap_missing : has (chain 50) sparse.blocks ≡ false
unfolding text_eq Hex.encode Hex.hex_digit
gap_missing = refl

abbrev found_at : ℕ → ℕ → Bool → UploadProbeResult
found_at i h exists = record { index = i; height = h; hash = chain h; exists = exists }

probed :
    (check_upload_probes world (0 ∷ 50 ∷ 100 ∷ []) 2 sparse).0
    ≡ ok (found_at 0 0 true ∷ found_at 1 50 false ∷ found_at 2 100 true ∷ [])
unfolding check_upload_probes Pool.run Pool.moves Pool.idle_slots Pool.perform Pool.pick
    Pool.has_returned text_eq Hex.encode Hex.hex_digit
probed = refl

check_upload_probes-Probed_example :
    Probed world chain Stored
      (check_upload_probes world (0 ∷ 50 ∷ 100 ∷ []) 2 sparse).1
      (found_at 0 0 true ∷ found_at 1 50 false ∷ found_at 2 100 true ∷ [])
      (0 ∷ 50 ∷ 100 ∷ [])
check_upload_probes-Probed_example =
    check_upload_probes-Probed world chain Stored lawful (0 ∷ 50 ∷ 100 ∷ []) 2 sparse
      (after (check_upload_probes world (0 ∷ 50 ∷ 100 ∷ []) 2 sparse) probed)

find_upload_start-bounds_example : (0 ≤ 100) × (100 ≤ 199)
find_upload_start-bounds_example =
    find_upload_start-bounds world chain Stored lawful 0 199 100 2 sparse (omega arith)
      (omega arith) (omega arith) (after (find_upload_start world 0 199 100 2 sparse) gap)

covered : (upload_blocks world 0 3 2 empty).0 ≡ ok 4
unfolding upload_blocks Windows.upload_probe_heights Pool.run Pool.moves Pool.idle_slots
    Pool.perform Pool.pick Pool.has_returned upload_blocks_from Windows.heights_between call
    Hex.decode trim_space Hex.hex_value uploads Windows.previous_upload_window_start text_eq
    Hex.encode Hex.hex_digit
covered = refl

upload_blocks_lem_example : Stored (chain 3) (upload_blocks world 0 3 2 empty).1
upload_blocks_lem_example =
    upload_blocks_lem world chain Stored lawful 0 3 2 3 empty (omega arith) (omega arith)
      (omega arith) (after (upload_blocks world 0 3 2 empty) covered) (inr (omega arith))

abbrev Held : Text → Bytes → Store → Type 0
Held key bin s = (rest : List (Text × Bytes)) × (s.indexes ≡ (key, bin) ∷ rest)

abbrev pub config : UploadConfig
config = record {
  from_height = 0;
  to_height = none;
  range_size = 4;
  stable_delay = 3;
  upload_workers = 2;
}

abbrev keys : List (Text × Bytes) → List Text
keys [] = []
keys ((k, d) ∷ rest) = k ∷ keys rest

-- Of the three ranges up to the tip at 9, only the first ends at least three heights below it.
one_published :
    keys (upload_once world config empty).1.indexes
    ≡ codes "index/range/v1/size-4/0000000000.bin" ∷ []
unfolding upload_once start_height object_key upload_blocks Windows.end_of_range
    Windows.upload_probe_heights Pool.run Pool.moves Pool.idle_slots Pool.perform Pool.pick
    Pool.has_returned upload_blocks_from Windows.heights_between
    Windows.previous_upload_window_start call Hex.decode trim_space Hex.hex_value Hex.encode
    Hex.hex_digit text_eq uploads is_stable upload_range_index_if_missing encode key_text decimal
    decimal_010 Windows.next_range_start Windows.final_upload_window_start
one_published = refl

-- At height 2 no range is stable yet.
upload_to-keeps_example : (upload_to world config 2 empty).1.indexes ≡ []
upload_to-keeps_example =
    upload_to-keeps world (λ s. s.indexes ≡ [])
      (record {
        by_choose = λ s p. p;
        by_count = λ s p. p;
        by_hash = λ h s p. p;
        by_raw = λ h s p. p;
        by_block = λ h s p. p;
        by_object = λ k s p. p;
        by_put = λ h d s p. p;
      })
      config 2 empty (λ key d t (start, named, below, stable) p. absurd (omega arith)) refl

ranges_from-enough_example :
    ranges_from world 3 9 4 9 2 50 0 empty ≡ ranges_from world 3 9 4 9 2 10 0 empty
ranges_from-enough_example =
    ranges_from-enough world 3 9 4 9 2 10 50 0 empty (omega arith) (omega arith) (omega arith)
      (omega arith) (omega arith)

-- Where the store refuses all blocks, three workers stop with their first job, and the sender with them.
upload_pool_returns_example :
    Pool.has_returned
      (Pool.run (uploaders full_world) 21 (Pool.fresh_pool (3 ∷ 4 ∷ 5 ∷ 6 ∷ []) 3) empty).0
    ≡ true
upload_pool_returns_example =
    upload_pool_returns full_world 3 (3 ∷ 4 ∷ 5 ∷ 6 ∷ []) empty (omega arith)
