-- ===== src/Event/Input/Hold.antt =====
-- The buttons that hold the mouse mode.
use whoa.Base.{
  ℕ, ◌≡◌, refl, ap, ◌∙◌, arith, bit, bit-zero, bit-bit_and, bit-bit_or, bit_and, bit_or, List, [],
  ◌∷◌, ◌==◌, Bool, true, Bool-cases, inl, inr, get_or,
}
use whoa.Base.Int.{ℤ, pos}
use whoa.Event.Types.{OsInput, OsEvent}
use whoa.Event.Input.{
  Screen, normal, Input, post, check_mouse_mode_state, event_set_mouse_mode, input_set_mouse_mode,
  process_input, process_all, complement, focus, mouse_up, mouse_data, generate_mouse_flags,
  post_key_down, post_key_up, post_focus, post_char, post_mouse_down, post_mouse_move,
  post_mouse_up, to_uint32, same_mode,
}
use whoa.Base.Masks.{bit_same}

bit_and-zero : (b : ℕ) → bit_and b 0 ≡ 0
bit_and-zero b = bit_same (bit_and b 0) 0 (λ j. bit-bit_and j b 0 ∙ ground (arith, bit-zero j))

zero-bit_and : (b : ℕ) → bit_and 0 b ≡ 0
zero-bit_and b = bit_same (bit_and 0 b) 0 (λ j. bit-bit_and j 0 b ∙ ground (arith, bit-zero j))

held_more : (h b more : ℕ) → bit_and h b ≡ h → bit_and h (bit_or b more) ≡ h
held_more h b more e = bit_same (bit_and h (bit_or b more)) h (λ j.
    bit-bit_and j h (bit_or b more)
    ∙ omega (arith, bit-bit_or j b more, ap (λ x. bit x j) e, bit-bit_and j h b))

module _ {screen : Screen} where
  -- The current context can be looked up, and the buttons that hold the mouse mode are down.
  pub record HoldOk (i : Input screen) : Type 0 where
    pub found : i.context_found ≡ true
    pub held : bit_and i.mouse_hold_button i.button_state ≡ i.mouse_hold_button

  check-HoldOk : (i : Input screen) → i.context_found ≡ true → HoldOk (check_mouse_mode_state i)
  unfolding check_mouse_mode_state event_set_mouse_mode input_set_mouse_mode
  check-HoldOk i found = elim (Bool-cases (i.mouse_hold_button == 0)) [
    | inl none_held ↦ rw none_held (record {
      found = found;
      held = (ground (arith, zero-bit_and i.button_state, ap (λ h. bit_and h i.button_state)));
    })
    | inr some_held ↦
        elim (Bool-cases (i.mouse_hold_button == bit_and i.mouse_hold_button i.button_state)) [
          | inl still ↦
              rw (some_held, still) (record { found = found; held = (ground (arith, still)) })
          | inr released ↦
              rw (some_held, released, found, bit_and-zero i.button_state)
                (elim (Bool-cases (same_mode i.mouse_mode normal)) [
                  | inl same ↦ rw same (record { found = refl; held = zero-bit_and i.button_state })
                  | inr other ↦
                      rw other (record { found = refl; held = zero-bit_and i.button_state })
                ])
        ]
  ]

  HoldOk-key_down :
      (key : ℕ) (repeat time : ℤ) (i : Input screen)
      → HoldOk i
      → HoldOk (post_key_down key repeat time i)
  unfolding post_key_down
  HoldOk-key_down key repeat time i v = record {
    found = ground (arith, v.found);
    held = ground (arith, v.held);
  }

  HoldOk-key_up :
      (key : ℕ) (repeat time : ℤ) (i : Input screen)
      → HoldOk i
      → HoldOk (post_key_up key repeat time i)
  unfolding post_key_up
  HoldOk-key_up key repeat time i v = record {
    found = ground (arith, v.found);
    held = ground (arith, v.held);
  }

  HoldOk-post_focus : (gained : ℤ) (i : Input screen) → HoldOk i → HoldOk (post_focus gained i)
  unfolding post_focus
  HoldOk-post_focus gained i v =
      check-HoldOk (post (focus gained) (record i { button_state = 0; meta_key_state = 0 })) v.found

  HoldOk-post_mouse_up :
      (button : ℕ) (x y : ℤ) (flags : ℕ) (time : ℤ) (i : Input screen)
      → HoldOk i
      → HoldOk (post_mouse_up button x y flags time i)
  unfolding post_mouse_up
  HoldOk-post_mouse_up button x y flags time i v =
      let i' = record i { button_state = bit_and i.button_state (complement button) } in
      let e = mouse_up (mouse_data button (bit_or flags (generate_mouse_flags i')) x y time i') in
      check-HoldOk (post e i') v.found

  HoldOk-process_input :
      (event : OsEvent) (shutdown : Bool) (i : Input screen)
      → HoldOk i
      → HoldOk (process_input event shutdown i).0
  unfolding process_input post_char post_mouse_down post_mouse_move
  HoldOk-process_input event shutdown i v =
      elim event.id as (λ id. HoldOk (process_input (record event { id = id }) shutdown i).0) [
        | OsInput.char ↦ record { found = v.found; held = v.held }
        | OsInput.size ↦ record { found = v.found; held = v.held }
        | OsInput.close ↦ record { found = v.found; held = v.held }
        | OsInput.focus ↦ HoldOk-post_focus _ i v
        | OsInput.key_down ↦ HoldOk-key_down _ _ _ i v
        | OsInput.key_up ↦ HoldOk-key_up _ _ _ i v
        | OsInput.mouse_down ↦ record {
          found = v.found;
          held =
              held_more i.mouse_hold_button i.button_state
                (to_uint32 (get_or event.param 0 (pos 0))) v.held;
        }
        | OsInput.mouse_move ↦ record { found = v.found; held = v.held }
        | OsInput.mouse_up ↦ HoldOk-post_mouse_up _ _ _ _ _ i v
        | _ ↦ v
      ]

  -- While the current context can be looked up, any events of the operating system leave the buttons
  -- that hold the mouse mode among those that are down, if they were before.
  pub HoldOk-process_all :
      (events : List OsEvent) (shutdown : Bool) (i : Input screen)
      → HoldOk i
      → HoldOk (process_all events shutdown i).0
  unfolding process_all
  HoldOk-process_all [] shutdown i v = v
  HoldOk-process_all (e ∷ es) shutdown i v =
      HoldOk-process_all es (process_input e shutdown i).1 (process_input e shutdown i).0
        (HoldOk-process_input e shutdown i v)
