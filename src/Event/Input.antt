-- ===== src/Event/Input.antt =====
-- src/event/Input.cpp: the input state, and what it posts for each event of the operating system.
-- The handlers that the dispatch of an event calls are not modelled: what is dispatched is recorded.
pub mod Bits
pub mod Keys
pub mod Hold
pub mod Process
mod Tests
use whoa.Base.{
  ℕ, ◌-◌, ◌*◌, ◌%◌, ◌^◌, bit_and, bit_or, List, [], ◌∷◌, ◌++◌, get_or, leb, ◌==◌, not,
  if◌then◌else◌, Bool, true, false,
}
use whoa.Base.Int.{ℤ, pos, negsuc}
use whoa.Event.Types.{OsInput, OsEvent}

-- A C cast to uint32_t, and the complement of 32 binary digits.
abbrev pub to_uint32 : ℤ → ℕ
to_uint32 (pos n) = n % 2 ^ 32
to_uint32 (negsuc n) = 2 ^ 32 - 1 - n % 2 ^ 32

abbrev pub complement : ℕ → ℕ
complement x = 2 ^ 32 - 1 - x % 2 ^ 32

-- KEY_LASTMETAKEY. KEY is unsigned, so KEY_NONE is above it.
abbrev pub last_meta_key : ℕ
last_meta_key = 5

pub data MouseMode : Type 0 where
  normal relative : MouseMode

abbrev pub is_relative : MouseMode → Bool
is_relative normal = false
is_relative relative = true

abbrev pub same_mode : MouseMode → MouseMode → Bool
same_mode normal normal = true
same_mode normal relative = false
same_mode relative normal = false
same_mode relative relative = true

-- What ConvertPosition computes with: `float`, and the sides of the window.
pub record Screen : Type 1 where
  pub Float : Type 0
  pub of_int : ℤ → Float
  pub divide : Float → Float → Float
  pub one_minus : Float → Float
  pub width : ℤ
  pub height : ℤ

pub record KeyData : Type 0 where
  pub key : ℕ
  pub meta_key_state : ℕ
  pub repeat : ℕ
  pub time : ℕ

pub record MouseData (screen : Screen) : Type 0 where
  pub mode : MouseMode
  pub button : ℕ
  pub button_state : ℕ
  pub meta_key_state : ℕ
  pub flags : ℕ
  pub x : screen.Float
  pub y : screen.Float
  pub time : ℕ

-- The events dispatched to a context, by EVENT_ID, and the calls that leave the input layer.
pub data Posted (screen : Screen) : Type 0 where
  char : ℤ → ℕ → ℕ → Posted screen
  focus : ℤ → Posted screen
  key_down key_up : KeyData → Posted screen
  mouse_down mouse_move mouse_up : MouseData screen → Posted screen
  size : ℤ → ℤ → Posted screen
  initiate_shutdown : Posted screen
  os_set_mouse_mode : MouseMode → Posted screen

-- s_buttonState, s_metaKeyState, s_mouseMode, s_mouseHoldButton, whether the current context can be
-- looked up, and what was posted, oldest first.
pub record Input (screen : Screen) : Type 0 where
  pub button_state : ℕ
  pub meta_key_state : ℕ
  pub mouse_mode : MouseMode
  pub mouse_hold_button : ℕ
  pub context_found : Bool
  pub posted : List (Posted screen)

-- `ConvertPosition`; a position out of the bounding rectangle is not treated yet.
convert_x : (screen : Screen) → ℤ → screen.Float
convert_x screen x = screen.divide (screen.of_int x) (screen.of_int screen.width)

convert_y : (screen : Screen) → ℤ → screen.Float
convert_y screen y =
    screen.one_minus (screen.divide (screen.of_int y) (screen.of_int screen.height))

module _ {screen : Screen} where
  abbrev pub post : Posted screen → Input screen → Input screen
  post e i = record i { posted = i.posted ++ (e ∷ []) }

  -- `GenerateMouseFlags`
  generate_mouse_flags : Input screen → ℕ
  generate_mouse_flags i = if is_relative i.mouse_mode then bit_or 0 0x2 else 0

  -- `IEvtInputSetMouseMode`; `PostMouseModeChanged` does nothing yet.
  pub input_set_mouse_mode : MouseMode → ℕ → Input screen → Input screen
  input_set_mouse_mode mode hold i =
      if bit_and i.button_state hold == hold
      then (let held = record i { mouse_hold_button = hold } in
          if not (same_mode i.mouse_mode mode) then post (os_set_mouse_mode mode) held else held)
      else i

  -- `EventSetMouseMode`
  pub event_set_mouse_mode : MouseMode → ℕ → Input screen → Input screen
  unfolding input_set_mouse_mode
  event_set_mouse_mode mode hold i = if i.context_found then input_set_mouse_mode mode hold i else i

  -- `CheckMouseModeState`
  pub check_mouse_mode_state : Input screen → Input screen
  unfolding event_set_mouse_mode
  check_mouse_mode_state i =
      if not (i.mouse_hold_button == 0)
      then (if not (i.mouse_hold_button == bit_and i.mouse_hold_button i.button_state)
          then event_set_mouse_mode normal 0 i
          else i)
      else i

  -- `PostChar`
  pub post_char : ℤ → ℤ → Input screen → Input screen
  post_char ch repeat i = post (char ch i.meta_key_state (to_uint32 repeat)) i

  -- `PostFocus`
  pub post_focus : ℤ → Input screen → Input screen
  unfolding check_mouse_mode_state
  post_focus gained i =
      check_mouse_mode_state
        (post (focus gained) (record i { button_state = 0; meta_key_state = 0 }))

  key_data : ℕ → ℤ → ℤ → Input screen → KeyData
  key_data key repeat time i = record {
    key = key;
    meta_key_state = i.meta_key_state;
    repeat = to_uint32 repeat;
    time = to_uint32 time;
  }

  -- `PostKeyDown`: a meta key that is down already posts nothing.
  pub post_key_down : ℕ → ℤ → ℤ → Input screen → Input screen
  post_key_down key repeat time i =
      if leb key last_meta_key
      then (if not (bit_and (1 * 2 ^ key) i.meta_key_state == 0)
          then i
          else let i' = record i { meta_key_state = bit_or i.meta_key_state (1 * 2 ^ key) } in
            post (key_down (key_data key repeat time i')) i')
      else post (key_down (key_data key repeat time i)) i

  -- `PostKeyUp`: a meta key that is up already posts nothing.
  pub post_key_up : ℕ → ℤ → ℤ → Input screen → Input screen
  post_key_up key repeat time i =
      if leb key last_meta_key
      then (if bit_and (1 * 2 ^ key) i.meta_key_state == 0
          then i
          else let i' = record i {
            meta_key_state = bit_and i.meta_key_state (complement (1 * 2 ^ key));
          } in
            post (key_up (key_data key repeat time i')) i')
      else post (key_up (key_data key repeat time i)) i

  mouse_data : ℕ → ℕ → ℤ → ℤ → ℤ → Input screen → MouseData screen
  unfolding convert_x convert_y
  mouse_data button flags x y time i = record {
    mode = i.mouse_mode;
    button = button;
    button_state = i.button_state;
    meta_key_state = i.meta_key_state;
    flags = flags;
    x = convert_x screen x;
    y = convert_y screen y;
    time = to_uint32 time;
  }

  -- `PostMouseDown`
  pub post_mouse_down : ℕ → ℤ → ℤ → ℤ → Input screen → Input screen
  unfolding generate_mouse_flags
  post_mouse_down button x y time i =
      let i' = record i { button_state = bit_or i.button_state button } in
      post (mouse_down (mouse_data button (generate_mouse_flags i') x y time i')) i'

  -- `PostMouseMove`
  pub post_mouse_move : ℤ → ℤ → ℤ → Input screen → Input screen
  unfolding generate_mouse_flags
  post_mouse_move x y time i =
      post (mouse_move (mouse_data 0 (generate_mouse_flags i) x y time i)) i

  -- `PostMouseUp`
  pub post_mouse_up : ℕ → ℤ → ℤ → ℕ → ℤ → Input screen → Input screen
  unfolding generate_mouse_flags check_mouse_mode_state
  post_mouse_up button x y flags time i =
      let i' = record i { button_state = bit_and i.button_state (complement button) } in
      check_mouse_mode_state (
        post (mouse_up (mouse_data button (bit_or flags (generate_mouse_flags i')) x y time i')) i')

  -- `ProcessInput`: the new state, and `shutdown`.
  pub process_input : OsEvent → Bool → Input screen → Input screen × Bool
  unfolding post_char post_focus post_key_down post_key_up post_mouse_down post_mouse_move
      post_mouse_up
  process_input event shutdown i =
      let param = λ (n : ℕ). get_or event.param n (pos 0) in
      elim event.id [
        | OsInput.char ↦ (post_char (param 0) (param 1) i, shutdown)
        | OsInput.size ↦ (post (size (param 0) (param 1)) i, shutdown)
        | OsInput.close ↦ (post initiate_shutdown i, true)
        | OsInput.focus ↦ (post_focus (param 0) i, shutdown)
        | OsInput.key_down ↦ (post_key_down (to_uint32 (param 0)) (param 1) (param 3) i, shutdown)
        | OsInput.key_up ↦ (post_key_up (to_uint32 (param 0)) (param 1) (param 3) i, shutdown)
        | OsInput.mouse_down ↦
            (post_mouse_down (to_uint32 (param 0)) (param 1) (param 2) (param 3) i, shutdown)
        | OsInput.mouse_move ↦ (post_mouse_move (param 1) (param 2) (param 3) i, shutdown)
        | OsInput.mouse_up ↦
            (post_mouse_up (to_uint32 (param 0)) (param 1) (param 2) 0 (param 3) i, shutdown)
        | _ ↦ (i, shutdown)
      ]

  -- The loop body over events in turn.
  pub process_all : List OsEvent → Bool → Input screen → Input screen × Bool
  unfolding process_input
  process_all [] shutdown i = (i, shutdown)
  process_all (e ∷ es) shutdown i =
      let (i', shutdown') = process_input e shutdown i in process_all es shutdown' i'
