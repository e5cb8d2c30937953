-- ===== src/Tests/Paths.antt =====
-- Destinations of files.
use innoextract_go.Base.{◌≡◌, refl, arith, false, [], ◌∷◌, Bytes, equal}
use innoextract_go.PathUtil.{
  clean, contains, expand_loop, clean_part, join, resolve, split, trim_slashes, replace_backslash,
  trim_drive, expand_constants, trim_app, resolve_step, is_unsafe,
}
use innoextract_go.PathUtil.Constants.{expand_loop_fuel, clean_idempotent}
use innoextract_go.PathUtil.Safety.{SafePath, clean-SafePath}

-- "..\ab"
abbrev climbing : Bytes
climbing = 46 ∷ 46 ∷ 92 ∷ 97 ∷ 98 ∷ []

clean-SafePath_example : SafePath (clean climbing)
clean-SafePath_example = clean-SafePath climbing

cleans : clean climbing ≡ 97 ∷ 98 ∷ []
unfolding clean join resolve split trim_slashes replace_backslash trim_drive expand_constants
    contains trim_app resolve_step equal clean_part is_unsafe
cleans = refl

expand_loop_fuel_example : expand_loop (λ s. s) 5 climbing ≡ expand_loop (λ s. s) 9 climbing
expand_loop_fuel_example = expand_loop_fuel (λ s. s) 5 9 climbing (omega arith) (omega arith)

plain : contains 123 (clean climbing) ≡ false
unfolding contains
plain = rw cleans

clean_idempotent_example : clean (clean climbing) ≡ clean climbing
clean_idempotent_example = clean_idempotent climbing plain
