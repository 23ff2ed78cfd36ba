-- ===== src/ConfigMedia/Json.antt =====
-- FromJson and ToJson of ConfigMedia.
pub mod Messages
pub mod Ranges
use rpi_webrtc_streamer.Base.{
  Bool, none, some, List, [], ◌∷◌, ◌++◌, ◌⊎◌, inl, inr, if◌then◌else◌, take, Text, codes,
}
use rpi_webrtc_streamer.ConfigMedia.{Outside}
use rpi_webrtc_streamer.ConfigMedia.Vars.{
  IntVar, BoolVar, TextVar, Row, cr_i, cr_b, cr, cr_l, media_config_row_list,
}
use rpi_webrtc_streamer.ConfigMedia.Rows.{
  int_name, int_remote_access, bool_name, bool_remote_access, text_name, text_remote_access,
}
use rpi_webrtc_streamer.ConfigMedia.Validate.{set_int, set_bool, set_text}
use rpi_webrtc_streamer.ConfigMedia.Load.{Settings}

module _ (O : Outside) where
  -- The error messages, cut by snprintf at 255 bytes.
  abbrev pub failed_to_validate : Text → Text → Text
  failed_to_validate name value =
      take 255 (codes "failed to validate " ++ (name ++ (codes " config value " ++ value)))

  abbrev pub invalid_value : Text → Text → Text
  invalid_value name value =
      take 255 (codes "invalid " ++ (name ++ (codes " config value " ++ value)))

  abbrev pub error_value : O.Value → Text
  error_value object = elim (O.to_text object) [ none ↦ [] | some text ↦ text ]

  -- A row of FromJson: an error, or what it adds to the values that were updated; and the settings.
  abbrev pub RowResult : Type 0
  RowResult = (Text ⊎ List (Text × O.Value)) × Settings O

  unfoldable pub from_json_int : IntVar → O.Value → Settings O → RowResult
  unfolding set_int
  from_json_int v object c = elim (O.to_int object) [
    | none ↦ (inl (invalid_value (int_name v) (error_value object)), c)
    | some value ↦
        let (ok, c') = set_int O v value c in
        if ok
        then (inr ((int_name v, O.int_value (c'.ints v)) ∷ []), c')
        else (inl (failed_to_validate (int_name v) (error_value object)), c')
  ]

  unfoldable pub from_json_bool : BoolVar → O.Value → Settings O → RowResult
  unfolding set_bool
  from_json_bool v object c = elim (O.to_bool object) [
    | none ↦ (inl (invalid_value (bool_name v) (error_value object)), c)
    | some value ↦
        let (ok, c') = set_bool O v value c in
        if ok
        then (inr ((bool_name v, O.bool_value (c'.bools v)) ∷ []), c')
        else (inl (failed_to_validate (bool_name v) (error_value object)), c')
  ]

  unfoldable pub from_json_text : TextVar → O.Value → Settings O → RowResult
  unfolding set_text
  from_json_text v object c = elim (O.to_text object) [
    | none ↦ (inl (invalid_value (text_name v) (error_value object)), c)
    | some value ↦
        let (ok, c') = set_text O v value c in
        if ok
        then (inr ((text_name v, O.text_value (c'.texts v)) ∷ []), c')
        else (inl (failed_to_validate (text_name v) (error_value object)), c')
  ]

  -- A row that a message may change and that the message names.
  abbrev pub if_named :
      Bool → Text → O.Value → (O.Value → Settings O → RowResult) → Settings O → RowResult
  if_named remote_access name json next c =
      if remote_access
      then elim (O.get_value json name) [ none ↦ (inr [], c) | some object ↦ next object c ]
      else (inr [], c)

  unfoldable pub from_json_row : O.Value → Row → Settings O → RowResult
  unfolding from_json_int from_json_bool from_json_text
  from_json_row json (cr_i v) c =
      if_named (int_remote_access v) (int_name v) json (from_json_int v) c
  from_json_row json (cr_b v) c =
      if_named (bool_remote_access v) (bool_name v) json (from_json_bool v) c
  from_json_row json (cr v) c =
      if_named (text_remote_access v) (text_name v) json (from_json_text v) c
  from_json_row json (cr_l v) c =
      if_named (text_remote_access v) (text_name v) json (from_json_text v) c

  abbrev pub unless_error : (List (Text × O.Value) → Settings O → RowResult) → RowResult → RowResult
  unless_error next (inl error, c) = (inl error, c)
  unless_error next (inr more, c) = next more c

  -- The first error ends the loop, and the settings stay as the rows before it have set them.
  unfoldable pub from_json_rows :
      O.Value → List Row → List (Text × O.Value) → Settings O → RowResult
  unfolding from_json_row
  from_json_rows json [] updated c = (inr updated, c)
  from_json_rows json (r ∷ rs) updated c =
      unless_error (λ more c'. from_json_rows json rs (updated ++ more) c') (from_json_row json r c)

  abbrev pub written : RowResult → (Text ⊎ Text) × Settings O
  written (inl error, c) = (inl error, c)
  written (inr updated, c) = (inr (O.write (O.json_object updated)), c)

  unfoldable pub from_json : Text → Settings O → (Text ⊎ Text) × Settings O
  unfolding from_json_rows
  from_json config_message c = elim (O.parse config_message) [
    | none ↦ (inl (codes "Parsing Error : " ++ O.parse_errors config_message), c)
    | some json ↦ written (from_json_rows json media_config_row_list [] c)
  ]

  unfoldable pub to_json_row : Row → Settings O → List (Text × O.Value)
  to_json_row (cr_i v) c =
      if int_remote_access v then (int_name v, O.int_value (c.ints v)) ∷ [] else []
  to_json_row (cr_b v) c =
      if bool_remote_access v then (bool_name v, O.bool_value (c.bools v)) ∷ [] else []
  to_json_row (cr v) c =
      if text_remote_access v then (text_name v, O.text_value (c.texts v)) ∷ [] else []
  to_json_row (cr_l v) c =
      if text_remote_access v then (text_name v, O.text_value (c.texts v)) ∷ [] else []

  unfoldable pub to_json_rows : List Row → Settings O → List (Text × O.Value)
  unfolding to_json_row
  to_json_rows [] c = []
  to_json_rows (r ∷ rs) c = to_json_row r c ++ to_json_rows rs c

  unfoldable pub to_json : Settings O → Text
  unfolding to_json_rows
  to_json c = O.write (O.json_object (to_json_rows media_config_row_list c))
