-- ===== src/Api/Settings.antt =====
-- options.go: the options of `Open`.
use innoextract_go.Base.{
  ℕ, ◌^◌, Option, none, some, List, [], ◌∷◌, ◌==◌, if◌then◌else◌, Bytes, ℤ, pos, negsuc,
}
use innoextract_go.Fault.{Result, ok, err, ◌>>=◌, other}
use innoextract_go.Stream.Reader.{Provider}

-- `options`
pub record Settings : Type 0 where
  pub password : Bytes
  pub codepage : ℕ
  pub slices : Option Provider
  pub memory_limit : ℤ
  pub header_limit : ℤ

-- `Option`: a change of the settings, or a refusal. A nil function is `none` in a list of them.
abbrev pub Setting : Type 0
Setting = Settings → Result Settings

unfoldable pub with_password : Bytes → Setting
with_password password s = ok (record s { password = password })

unfoldable pub with_codepage : ℕ → Setting
with_codepage codepage s =
    if codepage == 0 then err other else ok (record s { codepage = codepage })

-- `WithSliceProvider`; a nil provider is `none`.
unfoldable pub with_slice_provider : Option Provider → Setting
with_slice_provider none s = err other
with_slice_provider (some provider) s = ok (record s { slices = some provider })

unfoldable pub with_memory_limit : ℤ → Setting
with_memory_limit (negsuc n) s = err other
with_memory_limit (pos n) s = if n == 0 then err other else ok (record s { memory_limit = pos n })

-- `defaultOptions`
unfoldable pub default_settings : Settings
default_settings = record {
  password = [];
  codepage = 0;
  slices = none;
  memory_limit = pos (2 ^ 30);
  header_limit = pos 67108864;
}

-- The loop of `Open` over its options.
unfoldable pub apply_settings : List (Option Setting) → Settings → Result Settings
apply_settings [] s = ok s
apply_settings (none ∷ settings) s = err other
apply_settings (some setting ∷ settings) s = do next ← setting s; apply_settings settings next
