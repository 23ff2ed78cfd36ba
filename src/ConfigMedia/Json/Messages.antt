-- ===== src/ConfigMedia/Json/Messages.antt =====
-- A message keeps the integer settings in their ranges.
use rpi_webrtc_streamer.Base.{
  ℕ, ◌<◌, ◌^◌, ◌≡◌, sym, subst, ◌⊎◌, inl, inr, Bool, some, List, [], ◌∷◌, ◌++◌, if_cases,
  option_cases, option_split, Text,
}
use rpi_webrtc_streamer.ConfigMedia.{Outside}
use rpi_webrtc_streamer.ConfigMedia.Vars.{TextVar, Row, cr_i, cr_b, cr, cr_l, media_config_row_list}
use rpi_webrtc_streamer.ConfigMedia.Rows.{
  int_name, int_remote_access, bool_name, bool_remote_access, text_name, text_remote_access,
}
use rpi_webrtc_streamer.ConfigMedia.Validate.{set_int, set_bool, set_text}
use rpi_webrtc_streamer.ConfigMedia.Load.{Settings}
use rpi_webrtc_streamer.ConfigMedia.Json.{
  RowResult, from_json_int, from_json_bool, from_json_text, if_named, from_json_row, unless_error,
  from_json_rows, written, from_json,
}
use rpi_webrtc_streamer.ConfigMedia.Load.Steps.{AllBounded, set_text-ints, set_int-AllBounded}

module _ (O : Outside) where
  if_named-AllBounded :
      (remote_access : Bool) (name : Text) (json : O.Value)
      (next : O.Value → Settings O → RowResult O) (c : Settings O)
      → ((object : O.Value) → AllBounded (next object c).1.ints)
      → AllBounded c.ints
      → AllBounded (if_named O remote_access name json next c).1.ints
  if_named-AllBounded remote_access name json next c after before =
      if_cases Goal remote_access (option_cases Goal (O.get_value json name) before after) before
    where
      Goal : RowResult O → Type 0
      Goal r = AllBounded r.1.ints

  from_json_text-AllBounded :
      (v : TextVar) (c : Settings O)
      → AllBounded c.ints
      → (object : O.Value) → AllBounded (from_json_text O v object c).1.ints
  unfolding from_json_text
  from_json_text-AllBounded v c bounded object =
      option_cases (λ (r : RowResult O). AllBounded r.1.ints) (O.to_text object) bounded
        λ value.
          if_cases (λ (r : RowResult O). AllBounded r.1.ints) (set_text O v value c).0
            (subst AllBounded (sym (set_text-ints O v value c)) bounded)
            (subst AllBounded (sym (set_text-ints O v value c)) bounded)

  module _ (is_int : (object : O.Value) (n : ℕ) → O.to_int object ≡ some n → n < 2 ^ 32) where
    from_json_row-AllBounded :
        (json : O.Value) (r : Row) (c : Settings O)
        → AllBounded c.ints
        → AllBounded (from_json_row O json r c).1.ints
    unfolding from_json_row from_json_int from_json_bool from_json_text set_bool
    from_json_row-AllBounded json (cr_i v) c bounded =
        if_named-AllBounded (int_remote_access v) (int_name v) json (from_json_int O v) c
          (λ object.
            option_split (λ (r : RowResult O). AllBounded r.1.ints) (O.to_int object) bounded
              λ value e.
                if_cases (λ (r : RowResult O). AllBounded r.1.ints) (set_int O v value c).0
                  (set_int-AllBounded O v value c (is_int object value e) bounded)
                  (set_int-AllBounded O v value c (is_int object value e) bounded))
          bounded
    from_json_row-AllBounded json (cr_b v) c bounded =
        if_named-AllBounded (bool_remote_access v) (bool_name v) json (from_json_bool O v) c
          (λ object.
            option_cases (λ (r : RowResult O). AllBounded r.1.ints) (O.to_bool object) bounded
              λ value. bounded)
          bounded
    from_json_row-AllBounded json (cr v) c bounded =
        if_named-AllBounded (text_remote_access v) (text_name v) json (from_json_text O v) c
          (from_json_text-AllBounded v c bounded) bounded
    from_json_row-AllBounded json (cr_l v) c bounded =
        if_named-AllBounded (text_remote_access v) (text_name v) json (from_json_text O v) c
          (from_json_text-AllBounded v c bounded) bounded

    from_json_rows-AllBounded :
        (json : O.Value) (rs : List Row) (updated : List (Text × O.Value)) (c : Settings O)
        → AllBounded c.ints
        → AllBounded (from_json_rows O json rs updated c).1.ints
    unfolding from_json_rows
    from_json_rows-AllBounded json [] updated c bounded = bounded
    from_json_rows-AllBounded json (r ∷ rs) updated c bounded =
        continued (λ more c'. from_json_rows O json rs (updated ++ more) c')
          (from_json_row O json r c) (from_json_row-AllBounded json r c bounded)
          λ more c' bounded'. from_json_rows-AllBounded json rs (updated ++ more) c' bounded'
      where
        continued :
            (next : List (Text × O.Value) → Settings O → RowResult O) (o : RowResult O)
            → AllBounded o.1.ints
            → ((more : List (Text × O.Value)) (c' : Settings O)
                → AllBounded c'.ints
                → AllBounded (next more c').1.ints)
            → AllBounded (unless_error O next o).1.ints
        continued next (inl error, c') b go = b
        continued next (inr more, c') b go = go more c' b

    pub from_json-AllBounded :
        (message : Text) (c : Settings O)
        → AllBounded c.ints
        → AllBounded (from_json O message c).1.ints
    unfolding from_json
    from_json-AllBounded message c bounded =
        option_cases (λ (r : (Text ⊎ Text) × Settings O). AllBounded r.1.ints) (O.parse message)
          bounded
          λ json.
            after_written (from_json_rows O json media_config_row_list [] c)
              (from_json_rows-AllBounded json media_config_row_list [] c bounded)
      where
        after_written : (o : RowResult O) → AllBounded o.1.ints → AllBounded (written O o).1.ints
        after_written (inl error, c') b = b
        after_written (inr updated, c') b = b
