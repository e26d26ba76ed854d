-- ===== src/Tests/Streams.antt =====
-- Splitting a stream at concrete inputs: apps/main.cpp.
use cw_db.Prelude.{◌≡◌, refl, [], ◌∷◌, ◌++◌, true, arith}
use cw_db.Prelude.Bytes.{Bytes, codes}
use cw_db.Apps.StreamSplitter.{is_blank, statements, next, scan, step}
use cw_db.Apps.StreamSplitter.Lossless.{concat, statements-concat}

-- A `;` in a string and one in a comment do not end a statement.
abbrev source : Bytes
source = codes "a \";\" /*;*/; b; "

statements-run : statements 20 source ≡ codes "a \";\" /*;*/;" ∷ codes " b;" ∷ []
unfolding statements next scan step is_blank
statements-run = refl

statements-concat_example :
    (tail : Bytes) × (concat (statements 20 source) ++ tail ≡ source) × (is_blank tail ≡ true)
statements-concat_example = statements-concat 20 source (omega arith)
