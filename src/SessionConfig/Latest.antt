-- ===== src/SessionConfig/Latest.antt =====
-- The session configuration is a map: an id has what was last set for it and not removed since.
use rpi_webrtc_streamer.Base.{
  ℕ, ◌≡◌, refl, ap, ◌∙◌, Bool, true, false, Option, none, some, List, [], ◌∷◌, arith, ◌==◌,
  if◌then◌else◌, Text, if_split,
}
use rpi_webrtc_streamer.Signaling.{SessionConfigEntry}
use rpi_webrtc_streamer.SessionConfig.{SessionConfig, set_rtc_config, get_config, remove_config}

pub data SessionCall : Type 0 where
  set_call : ℕ → Text → SessionCall
  remove_call : ℕ → SessionCall

unfoldable pub session_steps : List SessionCall → SessionConfig → SessionConfig
unfolding set_rtc_config remove_config
session_steps [] s = s
session_steps (set_call id text ∷ calls) s = session_steps calls (set_rtc_config id text s)
session_steps (remove_call id ∷ calls) s = session_steps calls (remove_config id s)

-- What was last set for an id, if it was not removed since, and what it had before otherwise.
abbrev pub latest : ℕ → List SessionCall → Option Text → Option Text
latest id [] before = before
latest id (set_call j text ∷ calls) before = latest id calls (if j == id then some text else before)
latest id (remove_call j ∷ calls) before = latest id calls (if j == id then none else before)

abbrev found : ℕ → SessionConfig → Option Text
found id [] = none
found id (c ∷ cs) = if c.id == id then some c.rtc_config else found id cs

-- No id has two entries.
abbrev IsDistinct : SessionConfig → Type 0
IsDistinct [] = Unit
IsDistinct (c ∷ cs) = (found c.id cs ≡ none) × IsDistinct cs

abbrev pub answer : ℕ → SessionConfigEntry → Option Text → Bool × SessionConfigEntry
answer id pc_config none = (false, pc_config)
answer id pc_config (some text) = (true, record { id = id; rtc_config = text })

found-set_rtc_config :
    (id j : ℕ) (text : Text) (s : SessionConfig)
    → found id (set_rtc_config j text s) ≡ (if j == id then some text else found id s)
unfolding set_rtc_config
found-set_rtc_config id j text [] = ground arith
found-set_rtc_config id j text (c ∷ cs) = ground (arith, found-set_rtc_config id j text cs)

set_rtc_config-IsDistinct :
    (j : ℕ) (text : Text) (s : SessionConfig) → IsDistinct s → IsDistinct (set_rtc_config j text s)
unfolding set_rtc_config
set_rtc_config-IsDistinct j text [] d = (refl, tt)
set_rtc_config-IsDistinct j text (c ∷ cs) d =
    if_split IsDistinct (c.id == j) {x = record c { rtc_config = text } ∷ cs}
      {y = c ∷ set_rtc_config j text cs} (λ e. d)
      (λ e. (other e, set_rtc_config-IsDistinct j text cs d.1))
  where
    other : (c.id == j) ≡ false → found c.id (set_rtc_config j text cs) ≡ none
    other e = ground (arith, found-set_rtc_config c.id j text cs, d.0)

found-remove_config :
    (id j : ℕ) (s : SessionConfig)
    → IsDistinct s
    → found id (remove_config j s) ≡ (if j == id then none else found id s)
unfolding remove_config
found-remove_config id j [] d = ground arith
found-remove_config id j (c ∷ cs) d = ground (arith, found-remove_config id j cs d.1, d.0)

remove_config-IsDistinct :
    (j : ℕ) (s : SessionConfig) → IsDistinct s → IsDistinct (remove_config j s)
unfolding remove_config
remove_config-IsDistinct j [] d = tt
remove_config-IsDistinct j (c ∷ cs) d =
    if_split IsDistinct (c.id == j) {x = cs} {y = c ∷ remove_config j cs} (λ e. d.1)
      (λ e. (other, remove_config-IsDistinct j cs d.1))
  where
    other : found c.id (remove_config j cs) ≡ none
    other = ground (arith, found-remove_config c.id j cs d.1, d.0)

get_config-found :
    (id : ℕ) (s : SessionConfig) (pc_config : SessionConfigEntry)
    → get_config id s pc_config ≡ answer id pc_config (found id s)
unfolding get_config
get_config-found id [] pc_config = refl
get_config-found id (c ∷ cs) pc_config = ground (arith, get_config-found id cs pc_config)

session_steps-found :
    (calls : List SessionCall) (id : ℕ) (s : SessionConfig)
    → IsDistinct s
    → found id (session_steps calls s) ≡ latest id calls (found id s)
unfolding session_steps
session_steps-found [] id s d = refl
session_steps-found (set_call j text ∷ calls) id s d =
    session_steps-found calls id (set_rtc_config j text s) (set_rtc_config-IsDistinct j text s d)
    ∙ ap (latest id calls) (found-set_rtc_config id j text s)
session_steps-found (remove_call j ∷ calls) id s d =
    session_steps-found calls id (remove_config j s) (remove_config-IsDistinct j s d)
    ∙ ap (latest id calls) (found-remove_config id j s d)

-- After any calls of SetRtcConfig and Remove, GetConfig gives what was last set for an id, if it was
-- not removed since, and otherwise fails and leaves its out parameter as it was.
pub session_steps-latest :
    (calls : List SessionCall) (id : ℕ) (pc_config : SessionConfigEntry)
    → get_config id (session_steps calls []) pc_config ≡ answer id pc_config (latest id calls none)
session_steps-latest calls id pc_config =
    get_config-found id (session_steps calls []) pc_config
    ∙ ap (answer id pc_config) (session_steps-found calls id [] tt)
