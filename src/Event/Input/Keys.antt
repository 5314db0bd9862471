-- ===== src/Event/Input/Keys.antt =====
-- The meta keys: what is posted of them alternates, and the state is what was posted last.
use whoa.Base.{
  ℕ, ◌*◌, ◌^◌, ◌≤◌, ◌≡◌, refl, ap, ◌∙◌, sym, arith, bit, bit-zero, bit_and, bit_or, List, [], ◌∷◌,
  ◌++◌, Option, none, some, leb, ◌==◌, not, if◌then◌else◌, Bool, true, false, Bool-cases,
  Option-cases, inl, inr, get_or,
}
use whoa.Base.Int.{ℤ, pos}
use whoa.Event.Types.{OsInput, OsEvent}
use whoa.Event.Input.{
  Screen, normal, Posted, focus, key_down, key_up, mouse_up, os_set_mouse_mode, Input, post,
  check_mouse_mode_state, event_set_mouse_mode, input_set_mouse_mode, process_input, process_all,
  last_meta_key, complement, key_data, mouse_data, generate_mouse_flags, post_key_down, post_key_up,
  post_focus, post_char, post_mouse_down, post_mouse_move, post_mouse_up, to_uint32,
}
use whoa.Base.Masks.{test_bit}
use whoa.Event.Input.Bits.{bit_set_power, bit_clear_power}

abbrev pub bind_held : Option Bool → (Bool → Option Bool) → Option Bool
bind_held none f = none
bind_held (some b) f = f b

bind_some : (o : Option Bool) → bind_held o (λ b. some b) ≡ o
bind_some none = refl
bind_some (some b) = refl

module _ {screen : Screen} where
  -- What one posted event makes of a key that is down or up; none where it goes down twice or up
  -- twice.
  abbrev pub held_step : ℕ → Posted screen → Bool → Option Bool
  held_step k (key_down d) down =
      if d.key == k then (if down then none else some true) else some down
  held_step k (key_up d) down =
      if d.key == k then (if down then some false else none) else some down
  held_step k (focus gained) down = some false
  held_step k e down = some down

  -- What a list of posted events makes of a key that is up.
  abbrev pub held_from : ℕ → List (Posted screen) → Bool → Option Bool
  held_from k [] down = some down
  held_from k (e ∷ es) down = bind_held (held_step k e down) (held_from k es)

  -- The digit of the key in the state.
  abbrev pub is_down : ℕ → Input screen → Bool
  is_down k i = not (bit i.meta_key_state k == 0)

  -- The posted events of this key alternate, and leave it as the state has it.
  abbrev pub Agrees : ℕ → Input screen → Type 0
  Agrees k i = held_from k i.posted false ≡ some (is_down k i)

  held_from-append :
      (k : ℕ) (es : List (Posted screen)) (e : Posted screen) (down b : Bool)
      → held_from k es down ≡ some b
      → held_from k (es ++ (e ∷ [])) down ≡ held_step k e b
  held_from-append k [] e down b h = bind_some (held_step k e down) ∙ ap (held_step k e) (cc h)
  held_from-append k (x ∷ es) e down b h = elim (Option-cases (held_step k x down)) [
    | inl twice ↦ absurd (ground (arith, h, twice))
    | inr (d, once) ↦ rw once (held_from-append k es e d b (rw once at h))
  ]

  Agrees-post :
      (k : ℕ) (e : Posted screen) (i i' : Input screen)
      → Agrees k i
      → i'.posted ≡ i.posted
      → held_step k e (is_down k i) ≡ some (is_down k i')
      → Agrees k (post e i')
  Agrees-post k e i i' a same h =
      ap (λ l. held_from k (l ++ (e ∷ [])) false) same
      ∙ held_from-append k i.posted e false (is_down k i) a
      ∙ h

  Agrees-check : (k : ℕ) (i : Input screen) → Agrees k i → Agrees k (check_mouse_mode_state i)
  unfolding check_mouse_mode_state event_set_mouse_mode input_set_mouse_mode
  Agrees-check k i a =
      ground
        (arith, a, held_from-append k i.posted (os_set_mouse_mode normal) false (is_down k i) a)

  -- A posted event that is not about this key, in a state with the same meta keys.
  Agrees-other :
      (k : ℕ) (e : Posted screen) (i i' : Input screen)
      → Agrees k i
      → i'.posted ≡ i.posted
      → i'.meta_key_state ≡ i.meta_key_state
      → ((down : Bool) → held_step k e down ≡ some down)
      → Agrees k (post e i')
  Agrees-other k e i i' a same meta other =
      Agrees-post k e i i' a same
        (other (is_down k i) ∙ ap (λ m. some (not (bit m k == 0))) (sym meta))

  Agrees-key_down :
      (k key : ℕ) (repeat time : ℤ) (i : Input screen)
      → k ≤ last_meta_key
      → Agrees k i
      → Agrees k (post_key_down key repeat time i)
  unfolding post_key_down key_data
  Agrees-key_down k key repeat time i h a = elim (Bool-cases (leb key last_meta_key)) [
    | inl meta ↦ elim (Bool-cases (bit i.meta_key_state key == 0)) [
      | inl up ↦
          rw (meta, test_bit key i.meta_key_state, up)
            (Agrees-post k
              (key_down (
                key_data key repeat time
                  (record i { meta_key_state = bit_or i.meta_key_state (1 * 2 ^ key) })))
              i (record i { meta_key_state = bit_or i.meta_key_state (1 * 2 ^ key) }) a refl
              (ground (arith, up, bit_set_power key k i.meta_key_state, ap (bit i.meta_key_state))))
      | inr down ↦ rw (meta, test_bit key i.meta_key_state, down) a
    ]
    | inr plain ↦ rw plain (
        Agrees-post k (key_down (key_data key repeat time i)) i i a refl (ground (arith, plain, h)))
  ]

  Agrees-key_up :
      (k key : ℕ) (repeat time : ℤ) (i : Input screen)
      → k ≤ last_meta_key
      → Agrees k i
      → Agrees k (post_key_up key repeat time i)
  unfolding post_key_up key_data
  Agrees-key_up k key repeat time i h a = elim (Bool-cases (leb key last_meta_key)) [
    | inl meta ↦ elim (Bool-cases (bit i.meta_key_state key == 0)) [
      | inl up ↦ rw (meta, test_bit key i.meta_key_state, up) a
      | inr down ↦
          rw (meta, test_bit key i.meta_key_state, down)
            (Agrees-post k
              (key_up (
                key_data key repeat time (record i {
                  meta_key_state = bit_and i.meta_key_state (complement (1 * 2 ^ key));
                })))
              i (record i { meta_key_state = bit_and i.meta_key_state (complement (1 * 2 ^ key)) })
              a refl
              (ground (
                arith,
                down,
                bit_clear_power key k i.meta_key_state (ground (arith, meta)) (omega (arith, h)),
                ap (bit i.meta_key_state),
              )))
    ]
    | inr plain ↦
        rw plain (
          Agrees-post k (key_up (key_data key repeat time i)) i i a refl (ground (arith, plain, h)))
  ]

  Agrees-post_focus :
      (k : ℕ) (gained : ℤ) (i : Input screen) → Agrees k i → Agrees k (post_focus gained i)
  unfolding post_focus
  Agrees-post_focus k gained i a =
      let i' = record i { button_state = 0; meta_key_state = 0 } in
      Agrees-check k (post (focus gained) i')
        (Agrees-post k (focus gained) i i' a refl (ground (arith, bit-zero k)))

  Agrees-post_mouse_up :
      (k button : ℕ) (x y : ℤ) (flags : ℕ) (time : ℤ) (i : Input screen)
      → Agrees k i
      → Agrees k (post_mouse_up button x y flags time i)
  unfolding post_mouse_up
  Agrees-post_mouse_up k button x y flags time i a =
      let i' = record i { button_state = bit_and i.button_state (complement button) } in
      let e = mouse_up (mouse_data button (bit_or flags (generate_mouse_flags i')) x y time i') in
      Agrees-check k (post e i') (Agrees-other k e i i' a refl refl (λ d. refl))

  Agrees-process_input :
      (k : ℕ) (event : OsEvent) (shutdown : Bool) (i : Input screen)
      → k ≤ last_meta_key
      → Agrees k i
      → Agrees k (process_input event shutdown i).0
  unfolding process_input post_char post_mouse_down post_mouse_move
  Agrees-process_input k event shutdown i h a =
      elim event.id as (λ id. Agrees k (process_input (record event { id = id }) shutdown i).0) [
        | OsInput.char ↦ Agrees-other k _ i i a refl refl (λ d. refl)
        | OsInput.size ↦ Agrees-other k _ i i a refl refl (λ d. refl)
        | OsInput.close ↦ Agrees-other k _ i i a refl refl (λ d. refl)
        | OsInput.focus ↦ Agrees-post_focus k _ i a
        | OsInput.key_down ↦ Agrees-key_down k _ _ _ i h a
        | OsInput.key_up ↦ Agrees-key_up k _ _ _ i h a
        | OsInput.mouse_down ↦
            Agrees-other k _ i
              (record i {
                button_state = bit_or i.button_state (to_uint32 (get_or event.param 0 (pos 0)));
              })
              a refl refl (λ d. refl)
        | OsInput.mouse_move ↦ Agrees-other k _ i i a refl refl (λ d. refl)
        | OsInput.mouse_up ↦ Agrees-post_mouse_up k _ _ _ _ _ i a
        | _ ↦ a
      ]

  -- The posted events of a meta key alternate and leave it as the state has it, after any events
  -- of the operating system if it was so before them: it never goes down when it is down, nor up
  -- when it is up, a loss or gain of the focus counting as up.
  pub Agrees-process_all :
      (k : ℕ) (events : List OsEvent) (shutdown : Bool) (i : Input screen)
      → k ≤ last_meta_key
      → Agrees k i
      → Agrees k (process_all events shutdown i).0
  unfolding process_all
  Agrees-process_all k [] shutdown i h a = a
  Agrees-process_all k (e ∷ es) shutdown i h a =
      Agrees-process_all k es (process_input e shutdown i).1 (process_input e shutdown i).0 h
        (Agrees-process_input k e shutdown i h a)
