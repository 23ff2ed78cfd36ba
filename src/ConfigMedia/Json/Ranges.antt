-- ===== src/ConfigMedia/Json/Ranges.antt =====
-- The ranges of the settings, over any calls of ConfigMedia.
use rpi_webrtc_streamer.Base.{ℕ, ◌<◌, ◌^◌, ◌≡◌, sym, subst, Bool, Option, some, if_cases, Text}
use rpi_webrtc_streamer.ConfigMedia.{Outside}
use rpi_webrtc_streamer.ConfigMedia.Vars.{IntVar, BoolVar, TextVar, media_config_row_list}
use rpi_webrtc_streamer.ConfigMedia.Validate.{set_int, set_bool, set_text}
use rpi_webrtc_streamer.ConfigMedia.Integers.Bounds.{IsBounded}
use rpi_webrtc_streamer.ConfigMedia.Load.{Settings, reset, load}
use rpi_webrtc_streamer.ConfigMedia.Json.{from_json}
use rpi_webrtc_streamer.ConfigMedia.Load.Steps.{
  AllBounded, set_text-ints, set_int-AllBounded, reset-AllBounded, load_rows-AllBounded,
}
use rpi_webrtc_streamer.ConfigMedia.Json.Messages.{from_json-AllBounded}

module _ (O : Outside) where
  -- The calls that change the settings; every number that comes from outside is the pattern of an int.
  pub data SettingsStep (c : Settings O) : Settings O → Type 0 where
    reset_step : SettingsStep c (reset O c)
    set_int_step :
        (v : IntVar) (value : ℕ) → value < 2 ^ 32 → SettingsStep c (set_int O v value c).1
    set_bool_step : (v : BoolVar) (value : Bool) → SettingsStep c (set_bool O v value c).1
    set_text_step : (v : TextVar) (value : Text) → SettingsStep c (set_text O v value c).1
    load_step :
        (option_text : Text → Option Text) (option_int : Text → Option ℕ) (file_loaded : Bool)
        → ((name : Text) (n : ℕ) → option_int name ≡ some n → n < 2 ^ 32)
        → SettingsStep c (load O option_text option_int file_loaded c).1
    from_json_step : (message : Text) → SettingsStep c (from_json O message c).1

  pub data SettingsReach (c : Settings O) : Settings O → Type 0 where
    settings_here : SettingsReach c c
    settings_next : {d e : Settings O} → SettingsReach c d → SettingsStep d e → SettingsReach c e

  module _ (is_int : (object : O.Value) (n : ℕ) → O.to_int object ≡ some n → n < 2 ^ 32) where
    SettingsStep-AllBounded :
        {c d : Settings O} → SettingsStep c d → AllBounded c.ints → AllBounded d.ints
    unfolding load set_bool
    SettingsStep-AllBounded {c = c} reset_step bounded = reset-AllBounded O c
    SettingsStep-AllBounded {c = c} (set_int_step v value small) bounded =
        set_int-AllBounded O v value c small bounded
    SettingsStep-AllBounded (set_bool_step v value) bounded = bounded
    SettingsStep-AllBounded {c = c} (set_text_step v value) bounded =
        subst AllBounded (sym (set_text-ints O v value c)) bounded
    SettingsStep-AllBounded {c = c} (load_step option_text option_int file_loaded ints) bounded =
        if_cases (λ (r : Bool × Settings O). AllBounded r.1.ints) file_loaded
          (load_rows-AllBounded O option_text option_int ints media_config_row_list c bounded)
          bounded
    SettingsStep-AllBounded {c = c} (from_json_step message) bounded =
        from_json-AllBounded O is_int message c bounded

    SettingsReach-AllBounded :
        {c d : Settings O} → SettingsReach c d → AllBounded c.ints → AllBounded d.ints
    SettingsReach-AllBounded settings_here bounded = bounded
    SettingsReach-AllBounded (settings_next r step) bounded =
        SettingsStep-AllBounded step (SettingsReach-AllBounded r bounded)

    -- After the Reset of the constructor, whatever the memory held before, and then any calls of
    -- Reset, Load, FromJson and the setters, with any file and any message whose numbers are ints,
    -- every integer setting is in its range.
    pub SettingsReach-IsBounded :
        (memory c : Settings O) (v : IntVar)
        → SettingsReach (reset O memory) c
        → IsBounded v (c.ints v)
    SettingsReach-IsBounded memory c v r = SettingsReach-AllBounded r (reset-AllBounded O memory) v
