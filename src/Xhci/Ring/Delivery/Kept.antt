-- ===== src/Xhci/Ring/Delivery/Kept.antt =====
-- What the ring holds stays true at each step of the driver and of the controller.
use mathlib.Core.List.{map-append}
use edk2_adlink_ampere_altra.Base.{
  ℕ, suc, ◌+◌, ◌<◌, ◌≡◌, refl, sym, ap, ◌∙◌, true, false, some, List, [], ◌∷◌, ◌++◌, ◌==◌, length,
  get_elem?, map, arith, append_assoc, append-nil, length-append,
}
use edk2_adlink_ampere_altra.Xhci.Trb.{Trb, zero_trb, toggled, is_link, stamp}
use edk2_adlink_ampere_altra.Xhci.Ring.{TransferRing, xhc_sync_trs_ring, write_and_sync}
use edk2_adlink_ampere_altra.Xhci.Ring.Queue.{
  ring_of, length-map, toggled_lt, toggled_ne, toggled-toggled, write_more, write_round, sync_again,
}
use edk2_adlink_ampere_altra.Xhci.Ring.Delivery.{
  System, Step, post, sync, fetch, follow, NoLinks-append, NoLinks-right, Held, ahead, behind,
  at_written, at_free, past_free,
}

of_some : {A : Type 0} {x y : A} → some x ≡ some y → x ≡ y
of_some e = cc

-- What is outstanding, when one more is sent or the first of it is received.
sent_one :
    (sent received b : List Trb) (t : Trb)
    → sent ≡ received ++ map (stamp 0) b
    → sent ++ (stamp 0 t ∷ []) ≡ received ++ map (stamp 0) (b ++ (t ∷ []))
sent_one sent received b t e =
    ap (λ k. k ++ (stamp 0 t ∷ [])) e
    ∙ append_assoc received (map (stamp 0) b) (stamp 0 t ∷ [])
    ∙ ap (λ k. received ++ k) (sym (map-append (stamp 0) b (t ∷ [])))

received_one :
    (sent received b : List Trb) (x : Trb)
    → sent ≡ received ++ map (stamp 0) (x ∷ b)
    → sent ≡ (received ++ (stamp 0 x ∷ [])) ++ map (stamp 0) b
received_one sent received b x e =
    e ∙ sym (append_assoc received (stamp 0 x ∷ []) (map (stamp 0) b))

pub outstanding :
    (sent received b : List Trb)
    → sent ≡ received ++ map (stamp 0) b
    → length sent ≡ length received + length b
outstanding sent received b e =
    ap length e
    ∙ length-append received (map (stamp 0) b)
    ∙ ap (λ k. length received + k) (length-map (stamp 0) b)

module _ (room : ℕ) (s : System) (t : Trb) (r : TransferRing) (no_link : is_link t ≡ false)
    (space : length s.sent < length s.received + room)
    (wrote : write_and_sync s.transfers t ≡ some r) where
  posted : System
  posted = record s { transfers = r; sent = s.sent ++ (stamp 0 t ∷ []) }

  -- The ring that results is known once that of a ring in the same state is.
  becomes : {q r' : TransferRing} → s.transfers ≡ q → write_and_sync q t ≡ some r' → r ≡ r'
  becomes e w = of_some (sym wrote ∙ ap (λ q. write_and_sync q t) e ∙ w)

  post-Held : Held room s → Held room posted
  unfolding posted
  post-Held (ahead c a b free (o ∷ old) link bit end new_ok old_ok size e at ccs all) =
      ahead c a (b ++ (t ∷ [])) zero_trb old link bit end
        (rw (sym (append_assoc a b (t ∷ [])))
          (NoLinks-append (a ++ b) (t ∷ []) new_ok (no_link, tt)))
        old_ok.1 (omega (arith, length-append b (t ∷ [])))
        (becomes e (write_more c bit (a ++ b) free t link o old old_ok.0)
          ∙ ap (λ k. ring_of c k zero_trb old link) (append_assoc a b (t ∷ [])))
        at ccs (sent_one s.sent s.received b t all)
  post-Held (ahead c [] b free [] link bit end new_ok old_ok size e at ccs all) =
      absurd (omega (arith, outstanding s.sent s.received b all))
  post-Held (ahead c (h ∷ a) b free [] link bit end new_ok old_ok size e at ccs all) =
      behind (toggled c) [] zero_trb a (b ++ (t ∷ [])) link (toggled_lt c bit) end tt
        (rw (sym (append_assoc a b (t ∷ [])))
          (NoLinks-append (a ++ b) (t ∷ []) new_ok.1 (no_link, tt)))
        (omega (arith, length-append b (t ∷ [])))
        (becomes e (
          write_round c bit (h ∷ (a ++ b)) free t link h (a ++ (b ++ (t ∷ []))) end
            (ap (λ k. h ∷ k) (append_assoc a b (t ∷ [])))))
        (omega arith) (ccs ∙ toggled-toggled c bit)
        (rw append-nil (sent_one s.sent s.received b t all))
  post-Held (behind c new free [] b link bit end new_ok old_ok size e at ccs all) =
      absurd (omega (arith, outstanding s.sent s.received (b ++ new) all, length-append b new))
  post-Held (behind c new free (o ∷ a) b link bit end new_ok old_ok size e at ccs all) =
      behind c (new ++ (t ∷ [])) zero_trb a b link bit end
        (NoLinks-append new (t ∷ []) new_ok (no_link, tt)) old_ok.1
        (omega (arith, length-append new (t ∷ [])))
        (becomes e (write_more c bit new free t link o (a ++ b) old_ok.0))
        (omega (arith, length-append new (t ∷ []))) ccs
        (sent_one s.sent s.received (b ++ new) t all
          ∙ ap (λ k. s.received ++ map (stamp 0) k) (append_assoc b new (t ∷ [])))

sync-Held :
    (room : ℕ) (s : System) (r : TransferRing)
    → xhc_sync_trs_ring s.transfers ≡ some r
    → Held room s
    → Held room (record s { transfers = r })
sync-Held room s r went (ahead c a b free old link bit end new_ok old_ok size e at ccs all) =
    ahead c a b zero_trb old link bit end new_ok old_ok size
      (of_some (sym went ∙ ap xhc_sync_trs_ring e ∙ sync_again c bit (a ++ b) free free link old))
      at ccs all
sync-Held room s r went (behind c new free a b link bit end new_ok old_ok size e at ccs all) =
    behind c new zero_trb a b link bit end new_ok old_ok size
      (of_some (sym went ∙ ap xhc_sync_trs_ring e ∙ sync_again c bit new free free link (a ++ b)))
      at ccs all

pub at_end :
    (c : ℕ) (new : List Trb) (free : Trb) (a : List Trb) (link : Trb)
    → get_elem? (ring_of c new free a link).trbs (length new + 1 + length a)
      ≡ some (stamp (toggled c) link)
at_end c new free a link =
    past_free c new (stamp (toggled c) free) _ (length a) ∙ at_free (toggled c) a _ []

-- What the controller sees at its place, in each of the two cases.
module _ (room : ℕ) (s : System) (t : Trb) (seen : get_elem? s.transfers.trbs s.at ≡ some t) where
  pub sees :
      {q : TransferRing} {k : ℕ} {u : Trb}
      → s.transfers ≡ q
      → s.at ≡ k
      → get_elem? q.trbs k ≡ some u
      → t ≡ u
  sees e at w = of_some (sym seen ∙ (λ i. get_elem? (e i).trbs (at i)) ∙ w)

  fetch-Held :
      (t.cycle_bit == s.ccs) ≡ true
      → is_link t ≡ false
      → Held room s
      → Held room (record s { at = suc s.at; received = s.received ++ (stamp 0 t ∷ []) })
  fetch-Held mine no_link (ahead c a [] free old link bit end new_ok old_ok size e at ccs all) =
      let it : t ≡ stamp (toggled c) free =
        sees e at (rw append-nil (at_free c a (stamp (toggled c) free) _)) in
      ground (arith, mine, it, ccs, toggled_ne c bit)
  fetch-Held mine no_link
        (ahead c a (x ∷ b) free old link bit end new_ok old_ok size e at ccs all) =
      let it : t ≡ stamp c x = sees e at (at_written c a x b _) in
      let split : a ++ (x ∷ b) ≡ (a ++ (x ∷ [])) ++ b = sym (append_assoc a (x ∷ []) b) in
      ahead c (a ++ (x ∷ [])) b free old link bit end (rw (sym split) new_ok) old_ok
        (omega (arith, length-append a (x ∷ []))) (e ∙ ap (λ k. ring_of c k free old link) split)
        (omega (arith, length-append a (x ∷ []), at)) ccs
        (received_one s.sent s.received b x all
          ∙ ap (λ k. (s.received ++ (stamp 0 k ∷ [])) ++ map (stamp 0) b) (sym it))
  fetch-Held mine no_link (behind c new free a [] link bit end new_ok old_ok size e at ccs all) =
      let it : t ≡ stamp (toggled c) link = sees e at (rw append-nil (at_end c new free a link)) in
      ground (arith, no_link, it, end)
  fetch-Held mine no_link
        (behind c new free a (x ∷ b) link bit end new_ok old_ok size e at ccs all) =
      let it : t ≡ stamp (toggled c) x =
        sees e at (
          past_free c new (stamp (toggled c) free) _ (length a) ∙ at_written (toggled c) a x b _) in
      let split : a ++ (x ∷ b) ≡ (a ++ (x ∷ [])) ++ b = sym (append_assoc a (x ∷ []) b) in
      behind c new free (a ++ (x ∷ [])) b link bit end new_ok (rw (sym split) old_ok)
        (omega (arith, length-append a (x ∷ []))) (e ∙ ap (λ k. ring_of c new free k link) split)
        (omega (arith, length-append a (x ∷ []), at)) ccs
        (received_one s.sent s.received (b ++ new) x all
          ∙ ap (λ k. (s.received ++ (stamp 0 k ∷ [])) ++ map (stamp 0) (b ++ new)) (sym it))

  follow-Held :
      (t.cycle_bit == s.ccs) ≡ true
      → is_link t ≡ true
      → Held room s
      → Held room (record s { at = 0; ccs = toggled s.ccs })
  follow-Held mine is_end (ahead c a [] free old link bit end new_ok old_ok size e at ccs all) =
      let it : t ≡ stamp (toggled c) free =
        sees e at (rw append-nil (at_free c a (stamp (toggled c) free) _)) in
      ground (arith, mine, it, ccs, toggled_ne c bit)
  follow-Held mine is_end
        (ahead c a (x ∷ b) free old link bit end new_ok old_ok size e at ccs all) =
      let it : t ≡ stamp c x = sees e at (at_written c a x b _) in
      ground (arith, is_end, it, NoLinks-right a x b new_ok)
  follow-Held mine is_end (behind c new free a [] link bit end new_ok old_ok size e at ccs all) =
      ahead c [] new free (a ++ []) link bit end new_ok old_ok
        (omega (arith, ap length (append-nil a))) e refl
        (ap toggled ccs ∙ sym (toggled-toggled c bit)) all
  follow-Held mine is_end
        (behind c new free a (x ∷ b) link bit end new_ok old_ok size e at ccs all) =
      let it : t ≡ stamp (toggled c) x =
        sees e at (
          past_free c new (stamp (toggled c) free) _ (length a) ∙ at_written (toggled c) a x b _) in
      ground (arith, is_end, it, NoLinks-right a x b old_ok)

pub Step-Held : {room : ℕ} {s s' : System} → Step room s s' → Held room s → Held room s'
unfolding posted
Step-Held {room} (post s t r no_link space wrote) h = post-Held room s t r no_link space wrote h
Step-Held {room} (sync s r went) h = sync-Held room s r went h
Step-Held {room} (fetch s t seen mine no_link) h = fetch-Held room s t seen mine no_link h
Step-Held {room} (follow s t seen mine is_end) h = follow-Held room s t seen mine is_end h
