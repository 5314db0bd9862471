-- ===== src/Event/Queue/Dispatch.antt =====
-- The handlers that the dispatch of an event calls.
use whoa.Base.{
  ℕ, zero, suc, ◌<◌, ◌≡◌, refl, sym, ap, ◌∙◌, arith, ◌==◌, Bool, true, false, List, [], ◌∷◌, ◌++◌,
  map, none, some, length, append_assoc, Bool-cases, inl, inr,
}
use mathlib.Core.Path.{subst}
use whoa.Base.Removal.{remove, Avoids, remove-Avoids, remove-middle, append-Avoids}
use whoa.Event.Queue.{
  ExplicitList, ListLaws, Priority, EvtContext, EvtHandler, put_at, dispatch_from, dispatch,
}
use whoa.Event.Queue.Entries.{put_at_same, put_at_other, map-put_at}
use whoa.Event.Queue.SyncKeys.Updates.{update_sync_state-Synced}
use whoa.Event.Queue.SyncKeys.{is_down, id_after, list_size}

module _ (s : ExplicitList) (laws : ListLaws s) (order : Priority) (World : Type 0)
    (call : ℕ → ℕ → EvtContext s order World → Bool × EvtContext s order World)
    (act : ℕ → ℕ → World → Bool × World) where
  open laws use {items}

  -- A handler that leaves the queue alone: it acts on what is outside of it, by nothing else.
  abbrev pub IsQuiet : Type 0
  IsQuiet =
      (f p : ℕ) (c : EvtContext s order World)
      → call f p c ≡ ((act f p c.world).0, record c { world = (act f p c.world).1 })

  -- The handlers of a list called one after another, up to the first that returns 0. Markers are passed
  -- over.
  pub call_each : List (EvtHandler s order World) → World → World
  call_each [] w = w
  call_each (h ∷ hs) w =
      let r = act h.func h.param w in
      elim h.marker [
        | true ↦ call_each hs w
        | false ↦ elim r.0 [ false ↦ r.1 | true ↦ call_each hs r.1 ]
      ]

  record Called (id marker : ℕ) (c c' : EvtContext s order World) (all rest : List ℕ) : Type 0 where
    list : (p q : List ℕ) × (items (c'.queue_handler_list id) ≡ p ++ (marker ∷ q)) × (p ++ q ≡ all)
    world : c'.world ≡ call_each (map c.handlers rest) c.world
    others : (j : ℕ) → (j == id) ≡ false → c'.queue_handler_list j ≡ c.queue_handler_list j
    handlers : c'.handlers ≡ c.handlers
    buttons : c'.queue_sync_button_state ≡ c.queue_sync_button_state
    key_list : c'.queue_sync_key_down_list ≡ c.queue_sync_key_down_list
    keys : c'.keys ≡ c.keys

  -- What the rounds from a marker that was moved leave, told of where it was before.
  widen :
      {marker id a : ℕ} {c c' : EvtContext s order World} {q : List ℕ} (l1 : s.Links) (w : World)
      (all : List ℕ)
      → Called id marker
          (record c {
            queue_handler_list = put_at s order World id l1 c.queue_handler_list;
            world = w;
          })
          c'
          all
          q
      → call_each (map c.handlers q) w ≡ call_each (map c.handlers (a ∷ q)) c.world
      → Called id marker c c' all (a ∷ q)
  widen {marker} {id} {a} {c} {c'} {q} l1 w all r e = record {
    list = r.list;
    world = r.world ∙ e;
    others = λ j k. r.others j k ∙ put_at_other s order World id j l1 c.queue_handler_list k;
    handlers = r.handlers;
    buttons = r.buttons;
    key_list = r.key_list;
    keys = r.keys;
  }

  dispatch_from-Called :
      (rounds marker id : ℕ) (c : EvtContext s order World) (all p q : List ℕ)
      → IsQuiet
      → Avoids marker all
      → items (c.queue_handler_list id) ≡ p ++ (marker ∷ q)
      → p ++ q ≡ all
      → length q < rounds
      → (c' : EvtContext s order World) × (dispatch_from s order World call rounds marker id c
          ≡ some c')
        × Called id marker c c' all q
  unfolding dispatch_from call_each
  dispatch_from-Called zero marker id c all p q quiet away e f h = absurd (omega arith)
  dispatch_from-Called (suc rounds) marker id c all p [] quiet away e f h =
      let last = laws.next_lem marker (c.queue_handler_list id) p [] e in
      (
        c,
        rw (last, dispatch_from) refl,
        record {
          list = (p, [], e, f);
          world = refl;
          others = λ j k. refl;
          handlers = refl;
          buttons = refl;
          key_list = refl;
          keys = refl;
        },
      )
  dispatch_from-Called (suc rounds) marker id c all p (a ∷ q) quiet away e f h =
      let l = c.queue_handler_list id in
      let l1 = s.link_after marker (some a) l in
      let here : s.next marker l ≡ some a = laws.next_lem marker l p (a ∷ q) e in
      let (before, behind) = append-Avoids marker p (a ∷ q) (subst (Avoids marker) (sym f) away) in
      let removed : remove marker (items l) ≡ p ++ (a ∷ q) =
        ap (remove marker) e ∙ remove-middle marker p (a ∷ q) before behind in
      let relinked : items l1 ≡ (p ++ (a ∷ [])) ++ (marker ∷ q) =
        laws.after_node marker a l p q removed ∙ sym (append_assoc p (a ∷ []) (marker ∷ q)) in
      let moved = record c {
        queue_handler_list = put_at s order World id l1 c.queue_handler_list;
      } in
      let place : items (moved.queue_handler_list id) ≡ (p ++ (a ∷ [])) ++ (marker ∷ q) =
        rw (put_at_same s order World id l1 c.queue_handler_list) relinked in
      let whole : (p ++ (a ∷ [])) ++ q ≡ all = append_assoc p (a ∷ []) q ∙ f in
      let entry = c.handlers a in
      let called = quiet entry.func entry.param moved in
      let next = λ (w : World).
        dispatch_from-Called rounds marker id (record moved { world = w }) all (p ++ (a ∷ [])) q
          quiet away place whole (omega arith) in
      elim (Bool-cases entry.marker) [
        | inl skip ↦
            let (c', done, after) = next c.world in
            (
              c',
              rw (here, dispatch_from, skip) done,
              widen l1 c.world all after (
                  let hs = map c.handlers q in
                  let same : call_each (entry ∷ hs) c.world ≡ call_each hs c.world =
                    rw (skip, call_each) refl in
                  sym same),
            )
        | inr handler ↦ elim (Bool-cases (act entry.func entry.param c.world).0) [
          | inl goes ↦
              let (c', done, after) = next (act entry.func entry.param c.world).1 in
              (
                c',
                rw (here, dispatch_from, handler, called, goes, called) done,
                widen l1 (act entry.func entry.param c.world).1 all after (
                    let hs = map c.handlers q in
                    let same : call_each (entry ∷ hs) c.world
                        ≡ call_each hs (act entry.func entry.param c.world).1 =
                      rw (handler, call_each, goes) refl in
                    sym same),
              )
          | inr stops ↦ (
            record moved { world = (act entry.func entry.param c.world).1 },
            rw (here, dispatch_from, handler, called, stops, called) refl,
            record {
              list = (p ++ (a ∷ []), q, place, whole);
              world =
                  let hs = map c.handlers q in
                  let same : call_each (entry ∷ hs) c.world
                      ≡ (act entry.func entry.param c.world).1 =
                    rw (handler, call_each, stops) refl in
                  sym same;
              others = λ j k. put_at_other s order World id j l1 c.queue_handler_list k;
              handlers = refl;
              buttons = refl;
              key_list = refl;
              keys = refl;
            },
          )
        ]
      ]

  -- Where the handlers leave the queue alone, and there are more rounds than handlers of the event and
  -- than keys: the dispatch ends. With the id that the keys give the event, the handlers of its list are
  -- called in order, up to the first that returns 0, markers being passed over; the lists of all events
  -- are as before, and so are the entries of the handlers in this one.
  pub dispatch_lem :
      (any_priority : order.Value) (rounds key_rounds : ℕ) (c : EvtContext s order World)
      (event value : ℕ)
      → IsQuiet
      → list_size s laws order World c < key_rounds
      → length (
          items (
            c.queue_handler_list
              (id_after s laws order World event value (is_down s laws order World c))))
        < rounds
      → (c' : EvtContext s order World) × (dispatch s order World call any_priority rounds
            key_rounds c event value
          ≡ some c')
        × (c'.world
            ≡ call_each
                (map c.handlers (
                  items (
                    c.queue_handler_list
                      (id_after s laws order World event value (is_down s laws order World c)))))
                c.world)
        × ((id : ℕ) → items (c'.queue_handler_list id) ≡ items (c.queue_handler_list id))
        × (map c'.handlers (
              items (
                c.queue_handler_list
                  (id_after s laws order World event value (is_down s laws order World c))))
            ≡ map c.handlers (
                items (
                  c.queue_handler_list
                    (id_after s laws order World event value (is_down s laws order World c)))))
  unfolding dispatch
  dispatch_lem any_priority rounds key_rounds c0 event value quiet few enough =
      let id = id_after s laws order World event value (is_down s laws order World c0) in
      let (c, synced_done, synced) =
        update_sync_state-Synced s laws order World key_rounds c0 event value few in
      let l = c.queue_handler_list id in
      let marker = s.fresh l in
      let away = laws.fresh_lem l in
      let entry : EvtHandler s order World = record {
        func = 0;
        param = 0;
        priority = any_priority;
        marker = true;
      } in
      let c1 = record c {
        queue_handler_list =
            put_at s order World id (s.link_after marker none l) c.queue_handler_list;
        handlers = put_at s order World marker entry c.handlers;
      } in
      let linked : items (c1.queue_handler_list id) ≡ marker ∷ items l =
        rw (put_at_same s order World id (s.link_after marker none l) c.queue_handler_list)
          (laws.after_head marker l ∙ ap (◌∷◌ marker) (remove-Avoids marker (items l) away)) in
      let same_list : items l ≡ items (c0.queue_handler_list id) =
        ap (λ (f : ℕ → s.Links). items (f id)) synced.lists in
      let (c', done, called) =
        dispatch_from-Called rounds marker id c1 (items l) [] (items l) quiet away linked refl
          (omega (arith, enough, ap length same_list)) in
      let l2 = s.unlink_node marker (c'.queue_handler_list id) in
      let c'' = record c' {
        queue_handler_list = put_at s order World id l2 c'.queue_handler_list;
      } in
      let entries : map c1.handlers (items l) ≡ map c0.handlers (items (c0.queue_handler_list id)) =
        map-put_at s order World c.handlers marker entry (items l) away
        ∙ ap (λ (f : ℕ → EvtHandler s order World). map f (items l)) synced.handlers
        ∙ ap (map c0.handlers) same_list in
      let (p, q, place, whole) = called.list in
      let (before, behind) = append-Avoids marker p q (subst (Avoids marker) (sym whole) away) in
      let unlinked : items l2 ≡ items (c0.queue_handler_list id) =
        laws.unlink_lem marker (c'.queue_handler_list id)
        ∙ ap (remove marker) place
        ∙ remove-middle marker p q before behind
        ∙ whole
        ∙ same_list in
      (
        c'',
        rw (synced_done, dispatch, done) refl,
        called.world
            ∙ ap (λ hs. call_each hs c.world) entries
            ∙ ap (call_each (map c0.handlers (items (c0.queue_handler_list id)))) synced.world,
        λ j. elim (Bool-cases (j == id)) [
          | inl here ↦
              let e : id ≡ j = ground arith in
              rw here (unlinked ∙ ap (λ k. items (c0.queue_handler_list k)) e)
          | inr there ↦ rw there (
              ap items (
                called.others j there
                ∙ put_at_other s order World id j (s.link_after marker none l) c.queue_handler_list
                    there
                ∙ ap (λ (f : ℕ → s.Links). f j) synced.lists))
        ],
        ap (λ (f : ℕ → EvtHandler s order World). map f (items (c0.queue_handler_list id)))
              called.handlers
            ∙ ap (map c1.handlers) (sym same_list)
            ∙ entries,
      )
