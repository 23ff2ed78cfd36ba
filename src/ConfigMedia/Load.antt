-- ===== src/ConfigMedia/Load.antt =====
-- Reset, Load and Save of ConfigMedia: the rows in their order. The option file,
-- which is another library, is the two functions `option_text` and `option_int` of Load, and the
-- assignments that Save makes to it.
pub mod Steps
use rpi_webrtc_streamer.Base.{
  ℕ, Bool, true, false, Option, none, some, List, [], ◌∷◌, ◌++◌, if◌then◌else◌, Text, codes,
  same_text,
}
use rpi_webrtc_streamer.ConfigMedia.{Outside, ConfigMedia, with_int, with_bool, with_text}
use rpi_webrtc_streamer.ConfigMedia.Vars.{TextVar, Row, cr_i, cr_b, cr, cr_l, media_config_row_list}
use rpi_webrtc_streamer.ConfigMedia.Rows.{
  int_name, int_default, bool_name, bool_default, text_name, text_default,
}
use rpi_webrtc_streamer.ConfigMedia.Integers.{validate_int}
use rpi_webrtc_streamer.ConfigMedia.Validate.{validate_text}

module _ (O : Outside) where
  abbrev pub Settings : Type 0
  Settings = ConfigMedia O.Double

  unfoldable pub reset_row : Row → Settings → Settings
  unfolding validate_text
  reset_row (cr_i v) c = record c {
    ints = with_int v (int_default v) c.ints;
    ints_loaded = with_int v false c.ints_loaded;
  }
  reset_row (cr_b v) c = record c {
    bools = with_bool v (bool_default v) c.bools;
    bools_loaded = with_bool v false c.bools_loaded;
  }
  reset_row (cr v) c = record c {
    texts = with_text v (text_default v) c.texts;
    texts_loaded = with_text v false c.texts_loaded;
  }
  reset_row (cr_l v) c =
      let c' : Settings = record c {
        texts = with_text v (text_default v) c.texts;
        texts_loaded = with_text v false c.texts_loaded;
      } in
      (validate_text O v (text_default v) c').1

  unfoldable pub reset_rows : List Row → Settings → Settings
  unfolding reset_row
  reset_rows [] c = c
  reset_rows (r ∷ rs) c = reset_rows rs (reset_row r c)

  unfoldable pub reset : Settings → Settings
  unfolding reset_rows
  reset = reset_rows media_config_row_list

  module _ (option_text : Text → Option Text) (option_int : Text → Option ℕ) where
    unfoldable pub load_text : TextVar → Settings → Settings
    unfolding validate_text
    load_text v c = elim (option_text (text_name v)) [
      | none ↦ c
      | some value ↦
          let (ok, c') = validate_text O v value c in
          if ok
          then record c' {
            texts = with_text v value c'.texts;
            texts_loaded = with_text v true c'.texts_loaded;
          }
          else c'
    ]

    -- A Boolean row does not become a loaded one.
    unfoldable pub load_row : Row → Settings → Settings
    unfolding load_text validate_int
    load_row (cr_i v) c = elim (option_int (int_name v)) [
      | none ↦ c
      | some value ↦
          if validate_int v value
          then record c {
            ints = with_int v value c.ints;
            ints_loaded = with_int v true c.ints_loaded;
          }
          else c
    ]
    load_row (cr_b v) c = elim (option_text (bool_name v)) [
      | none ↦ c
      | some value ↦
          if same_text value (codes "true")
          then record c { bools = with_bool v true c.bools }
          else (if same_text value (codes "false")
              then record c { bools = with_bool v false c.bools }
              else c)
    ]
    load_row (cr v) c = load_text v c
    load_row (cr_l v) c = load_text v c

    unfoldable pub load_rows : List Row → Settings → Settings
    unfolding load_row
    load_rows [] c = c
    load_rows (r ∷ rs) c = load_rows rs (load_row r c)

    -- `file_loaded` is what the Load of the option file returns.
    unfoldable pub load : Bool → Settings → Bool × Settings
    unfolding load_rows
    load file_loaded c =
        if file_loaded then (true, load_rows media_config_row_list c) else (false, c)

  -- An assignment to the option file.
  pub data OptionValue : Type 0 where
    option_string : Text → OptionValue
    option_number : ℕ → OptionValue

  unfoldable pub save_row : Row → Settings → List (Text × OptionValue)
  save_row (cr_i v) c = if c.ints_loaded v then (int_name v, option_number (c.ints v)) ∷ [] else []
  save_row (cr_b v) c =
      if c.bools_loaded v
      then (bool_name v, option_string (if c.bools v then codes "true" else codes "false")) ∷ []
      else []
  save_row (cr v) c = if c.texts_loaded v then (text_name v, option_string (c.texts v)) ∷ [] else []
  save_row (cr_l v) c =
      if c.texts_loaded v then (text_name v, option_string (c.texts v)) ∷ [] else []

  unfoldable pub save_rows : List Row → Settings → List (Text × OptionValue)
  unfolding save_row
  save_rows [] c = []
  save_rows (r ∷ rs) c = save_row r c ++ save_rows rs c

  -- What is set in the option file, and the result, which is that of its Save.
  unfoldable pub save : Bool → Settings → Bool × List (Text × OptionValue)
  unfolding save_rows
  save file_saved c = (file_saved, save_rows media_config_row_list c)
