-- ===== src/Setup/WholeStream.antt =====
-- The parsers of the two streams of internal/setup/setup.go stay inside the block, so that the test
-- behind them is passed only at the end of the block.
use innoextract_go.Base.{ℕ, ◌≡◌, arith, length-set, Bool, length, Bytes}
use innoextract_go.Fault.{ok}
use innoextract_go.Format.{Version, Compression}
use innoextract_go.Setup.Cursor.{Cursor, Parser, start}
use innoextract_go.Setup.Cursor.Inside.{Inside, inside_rules}
use innoextract_go.Setup.Entries.{
  parse_language, skip_message, skip_type, skip_component, skip_task, skip_directory,
  skip_issig_key, parse_verification, parse_file, skip_condition, skip_icon, skip_ini,
  parse_registry, skip_delete, skip_run, skip_images, skip_wizard_and_dlls, parse_data_checksum,
  read_data_flags, parse_data_entry,
}
use innoextract_go.Setup.Flags.{read_header_flags}
use innoextract_go.Setup.Header.{
  seven_zip_library, parse_texts, parse_counts, skip_appearance, parse_password, parse_tail,
  parse_header,
}
use innoextract_go.Setup.Parse.{at_end}
use innoextract_go.Setup.PrimaryStream.{parse_primary, parse_secondary}
use innoextract_go.Setup.Text.{append_zero, string_utf16}

Inside-append_zero : (bs : Bytes) → Inside (append_zero bs)
unfolding append_zero
Inside-append_zero bs = record {
  behind = λ c a c' within e. ground (arith, length-set c.b c.pos 0);
}

Inside-string_utf16 : (limit : ℕ) → Inside (string_utf16 limit)
unfolding string_utf16
Inside-string_utf16 limit = search (inside_rules, Inside-append_zero)

Inside-parse_data_entry :
    (v : Version) (compression : Compression) → Inside (parse_data_entry v compression)
unfolding parse_data_entry parse_data_checksum read_data_flags
Inside-parse_data_entry v compression = search inside_rules depth 40

module _ (v : Version) (limit : ℕ) where
  Inside-parse_language : Inside (parse_language v limit)
  unfolding parse_language
  Inside-parse_language = search (inside_rules, Inside-string_utf16) depth 40

  Inside-skip_message : Inside (skip_message v limit)
  unfolding skip_message
  Inside-skip_message = search inside_rules

  Inside-skip_type : Inside (skip_type v limit)
  unfolding skip_type
  Inside-skip_type = search inside_rules depth 20

  Inside-skip_component : Inside (skip_component v limit)
  unfolding skip_component
  Inside-skip_component = search inside_rules depth 20

  Inside-skip_task : Inside (skip_task v limit)
  unfolding skip_task
  Inside-skip_task = search inside_rules depth 20

  Inside-skip_directory : Inside (skip_directory v limit)
  unfolding skip_directory
  Inside-skip_directory = search inside_rules depth 20

  Inside-skip_issig_key : Inside (skip_issig_key v limit)
  unfolding skip_issig_key
  Inside-skip_issig_key = search inside_rules

  Inside-parse_verification : Inside (parse_verification v limit)
  unfolding parse_verification
  Inside-parse_verification = search inside_rules depth 20

  Inside-parse_file : Inside (parse_file v limit)
  unfolding parse_file
  Inside-parse_file = search (inside_rules, Inside-string_utf16, Inside-parse_verification) depth 40

  Inside-parse_registry : Inside (parse_registry v limit)
  unfolding parse_registry
  Inside-parse_registry = search (inside_rules, Inside-string_utf16) depth 20

  Inside-skip_condition : Inside (skip_condition v limit)
  unfolding skip_condition
  Inside-skip_condition = search inside_rules

  Inside-skip_icon : Inside (skip_icon v limit)
  unfolding skip_icon
  Inside-skip_icon = search (inside_rules, Inside-skip_condition) depth 20

  Inside-skip_ini : Inside (skip_ini v limit)
  unfolding skip_ini
  Inside-skip_ini = search (inside_rules, Inside-skip_condition) depth 20

  Inside-skip_delete : Inside (skip_delete v limit)
  unfolding skip_delete
  Inside-skip_delete = search (inside_rules, Inside-skip_condition) depth 20

  Inside-skip_run : Inside (skip_run v limit)
  unfolding skip_run
  Inside-skip_run = search (inside_rules, Inside-skip_condition) depth 20

  Inside-skip_images : Inside (skip_images v limit)
  unfolding skip_images
  Inside-skip_images = search inside_rules depth 20

  Inside-parse_texts : Inside (parse_texts v limit)
  unfolding parse_texts seven_zip_library
  Inside-parse_texts = search (inside_rules, Inside-string_utf16) depth 40

ruleset entry_rules = (
  inside_rules, Inside-parse_language, Inside-skip_message, Inside-skip_type, Inside-skip_component,
  Inside-skip_task, Inside-skip_directory, Inside-skip_issig_key, Inside-parse_file,
  Inside-skip_icon, Inside-skip_ini, Inside-parse_registry, Inside-skip_delete, Inside-skip_run,
)

Inside-read_header_flags : (v : Version) → Inside (read_header_flags v)
unfolding read_header_flags
Inside-read_header_flags v = search inside_rules

Inside-skip_appearance : (v : Version) → Inside (skip_appearance v)
unfolding skip_appearance
Inside-skip_appearance v = search inside_rules depth 40

Inside-parse_counts : (v : Version) (b : Bool) → Inside (parse_counts v b)
unfolding parse_counts
Inside-parse_counts v b = search inside_rules depth 40

Inside-parse_password : (v : Version) → Inside (parse_password v)
unfolding parse_password
Inside-parse_password v = search inside_rules depth 20

Inside-parse_tail : (v : Version) → Inside (parse_tail v)
unfolding parse_tail
Inside-parse_tail v = search (inside_rules, Inside-read_header_flags) depth 40

Inside-parse_header : (v : Version) (b : Bool) (limit : ℕ) → Inside (parse_header v b limit)
unfolding parse_header
Inside-parse_header v b limit =
    search
      (
        inside_rules, Inside-parse_texts, Inside-parse_counts, Inside-skip_appearance,
        Inside-parse_password, Inside-parse_tail,
      )
      depth 20

Inside-skip_wizard_and_dlls :
    (v : Version) (compression : Compression) (b : Bool) (limit : ℕ)
    → Inside (skip_wizard_and_dlls v compression b limit)
unfolding skip_wizard_and_dlls
Inside-skip_wizard_and_dlls v compression b limit =
    search (inside_rules, Inside-skip_images) depth 20

pub Inside-parse_primary : (v : Version) (b : Bool) (limit : ℕ) → Inside (parse_primary v b limit)
unfolding parse_primary
Inside-parse_primary v b limit =
    search (entry_rules, Inside-parse_header, Inside-skip_wizard_and_dlls) depth 60

pub Inside-parse_secondary :
    (v : Version) (compression : Compression) (n : ℕ) → Inside (parse_secondary v compression n)
unfolding parse_secondary
Inside-parse_secondary v compression n = search (inside_rules, Inside-parse_data_entry)

pub at_end-whole {ℓ} :
    {A : Type ℓ} (m : Parser A)
    → Inside m
    → (block : Bytes) {a a' : A} {c : Cursor} → m (start block) ≡ ok (a, c)
    → at_end (a, c) ≡ ok a'
    → (a ≡ a') × (c.pos ≡ length block)
unfolding at_end
at_end-whole m inside block {a} {a'} {c} e done =
    let (size, _, below) = inside.behind (start block) a c (omega arith) e in
    (ground arith, ground arith)
