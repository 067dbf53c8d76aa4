-- ===== src/Command/Blank.antt =====
-- A command of zeros with a header and a data pointer, word by word.
use atc26_shaper_io.Prelude.{ℕ, ◌+◌, ◌*◌, ◌/◌, ◌%◌, ◌^◌, ◌≡◌, ◌∙◌, ap, [], ◌∷◌, replicate, arith}
use atc26_shaper_io.Prelude.Words.{u32}
use atc26_shaper_io.Types.{Dwords}
use atc26_shaper_io.Command.{nvm_cmd_header, nvm_cmd_data_ptr}
use atc26_shaper_io.Command.Fields.{header_lem, clear_flags}

-- the words 0, 1, 6, 7, 8 and 9, and zeros
abbrev pub words : ℕ → ℕ → ℕ → ℕ → Dwords
words op ns_id low high =
    op ∷ ns_id ∷ 0 ∷ 0 ∷ 0 ∷ 0 ∷ low ∷ high ∷ 0 ∷ 0 ∷ 0 ∷ 0 ∷ 0 ∷ 0 ∷ 0 ∷ 0 ∷ []

pub header-words :
    (op ns_id : ℕ) → nvm_cmd_header (replicate 16 0) 0 op ns_id ≡ words (op % 2 ^ 7) ns_id 0 0
unfolding nvm_cmd_header
header-words op ns_id =
    let first = header_lem 0 op ∙ omega arith in ap (λ (w : ℕ). words w ns_id 0 0) first

pub pointed-words :
    (op ns_id ioaddr : ℕ)
    → nvm_cmd_data_ptr (nvm_cmd_header (replicate 16 0) 0 op ns_id) ioaddr 0
      ≡ words (op % 2 ^ 7) ns_id (u32 ioaddr) (u32 (ioaddr / 2 ^ 32))
unfolding nvm_cmd_data_ptr
pointed-words op ns_id ioaddr =
    let whole : 0 * 2 ^ 16 + op % 2 ^ 7 ≡ op % 2 ^ 7 = omega arith in
    let kept = clear_flags 0 (op % 2 ^ 7) (omega arith) (omega arith) in
    let first = rw whole at kept in
    rw (header-words op ns_id)
      (ap (λ (w : ℕ). words w ns_id (u32 ioaddr) (u32 (ioaddr / 2 ^ 32))) first)
