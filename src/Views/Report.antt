-- ===== src/Views/Report.antt =====
-- src/consensus.rs, `InitViewChange`: what a replica reports.
use mathlib.Core.Path.{subst}
use p_bft.Base.{
  ℕ, ◌*◌, ◌<◌, ◌≡◌, inl, inr, refl, true, false, some, is_some, List, [], ◌∷◌, length, arith,
  nat_eq, pair_eq, leb, ltb, Option-cases, Bool-cases, pair_beq, pair_beq_iff, ap, sym, ◌∙◌,
}
use p_bft.Collections.HashMap.{HashMap, Entries, get, values}
use p_bft.Collections.HashMap.Laws.{insert-Entries, get-Entries, get-insert_self}
use p_bft.Collections.HashMap.Keys.{get-insert-is_some}
use p_bft.Messages.PrePrepare.{PrePrepare}
use p_bft.Messages.Prepare.{Prepare}
use p_bft.Messages.ViewChange.{Prepared}
use p_bft.Consensus.Defs.{Consensus}
use p_bft.Consensus.Changes.{add_prepared, prepared_from, subsequent_prepares}
use p_bft.Consensus.Invariant.Defs.{WellFormed, FiledProposal}

-- the votes that a replica keeps, by view and sequence number
abbrev Votes : Type 0
Votes = HashMap (ℕ × ℕ) (HashMap ℕ Prepare)

-- A quorum of prepares is on record for the proposal, and these are the votes listed.
abbrev pub PreparedAt : ℕ → ℕ → Votes → ℕ → PrePrepare × List Prepare → Type 0
PreparedAt f stable votes n (p, listed) =
    (stable < n)
    × (p.seq_num ≡ n)
    × ((vote_set : HashMap ℕ Prepare) × (get votes (p.view, n) ≡ some vote_set)
        × (2 * f < length vote_set)
        × (listed ≡ values vote_set))

module _ (f stable : ℕ) (votes : Votes) where
  add_prepared-Entries :
      (pair : ℕ × ℕ) (p : PrePrepare) (acc : Prepared)
      → FiledProposal pair p
      → Entries (PreparedAt f stable votes) acc
      → Entries (PreparedAt f stable votes) (add_prepared f stable votes pair p acc)
  unfolding add_prepared
  add_prepared-Entries (view, n) p acc filed h = elim (Bool-cases (leb n stable)) [
    | inl y ↦ rw y h
    | inr above ↦ rw above (elim (Option-cases (get votes (view, n))) [
      | inl k ↦ rw (k, add_prepared) h
      | inr (vote_set, k) ↦
          rw (k, add_prepared)
            (elim (Bool-cases (ltb (2 * f) (length vote_set))) [
              | inl y ↦ rw y (
                  insert-Entries (PreparedAt f stable votes) acc n (p, values vote_set) h
                    (
                      ground arith,
                      ap (λ x. x.1) filed,
                      (
                        vote_set,
                        ap (λ (x : ℕ × ℕ). get votes (x.0, n)) filed ∙ k,
                        ground arith,
                        refl,
                      ),
                    ))
              | inr z ↦ rw z h
            ])
    ])
  ]

  prepared_from-Entries :
      (log : HashMap (ℕ × ℕ) PrePrepare) (acc : Prepared)
      → Entries FiledProposal log
      → Entries (PreparedAt f stable votes) acc
      → Entries (PreparedAt f stable votes) (prepared_from f stable votes log acc)
  unfolding prepared_from
  prepared_from-Entries [] acc filed h = h
  prepared_from-Entries ((pair, p) ∷ log) acc filed h =
      prepared_from-Entries log (add_prepared f stable votes pair p acc) filed.1
        (add_prepared-Entries pair p acc filed.0 h)

  -- A report once made stays, whatever is added.
  add_prepared-keeps :
      (pair : ℕ × ℕ) (p : PrePrepare) (acc : Prepared) (n : ℕ)
      → is_some (get acc n) ≡ true
      → is_some (get (add_prepared f stable votes pair p acc) n) ≡ true
  unfolding add_prepared
  add_prepared-keeps (view, k) p acc n h = elim (Bool-cases (leb k stable)) [
    | inl y ↦ rw y h
    | inr above ↦ rw above (elim (Option-cases (get votes (view, k))) [
      | inl g ↦ rw (g, add_prepared) h
      | inr (vote_set, g) ↦
          rw (g, add_prepared)
            (elim (Bool-cases (ltb (2 * f) (length vote_set))) [
              | inl y ↦ rw y (get-insert-is_some acc k n (p, values vote_set) h)
              | inr z ↦ rw z h
            ])
    ])
  ]

  add_prepared-adds :
      (view n : ℕ) (p : PrePrepare) (acc : Prepared) (vote_set : HashMap ℕ Prepare)
      → stable < n
      → get votes (view, n) ≡ some vote_set
      → 2 * f < length vote_set
      → is_some (get (add_prepared f stable votes (view, n) p acc) n) ≡ true
  unfolding add_prepared
  add_prepared-adds view n p acc vote_set above k q =
      let a : leb n stable ≡ false = ground arith in
      let b : ltb (2 * f) (length vote_set) ≡ true = ground arith in
      rw a (rw (k, add_prepared) (rw b (ap is_some (get-insert_self acc n (p, values vote_set)))))

  prepared_from-keeps :
      (log : HashMap (ℕ × ℕ) PrePrepare) (acc : Prepared) (n : ℕ)
      → is_some (get acc n) ≡ true
      → is_some (get (prepared_from f stable votes log acc) n) ≡ true
  unfolding prepared_from
  prepared_from-keeps [] acc n h = h
  prepared_from-keeps ((pair, p) ∷ log) acc n h =
      prepared_from-keeps log (add_prepared f stable votes pair p acc) n
        (add_prepared-keeps pair p acc n h)

  prepared_from-is_some :
      (log : HashMap (ℕ × ℕ) PrePrepare) (acc : Prepared) (view n : ℕ) (p : PrePrepare)
      (vote_set : HashMap ℕ Prepare)
      → get log (view, n) ≡ some p
      → stable < n
      → get votes (view, n) ≡ some vote_set
      → 2 * f < length vote_set
      → is_some (get (prepared_from f stable votes log acc) n) ≡ true
  unfolding prepared_from
  prepared_from-is_some [] acc view n p vote_set g above k q = absurd (unfold get in cc)
  prepared_from-is_some (((v, m), r) ∷ log) acc view n p vote_set g above k q =
      elim (Bool-cases (pair_beq nat_eq nat_eq (v, m) (view, n))) [
        | inl y ↦
            let same = (pair_beq_iff nat_eq nat_eq (v, m) (view, n)).0 y in
            prepared_from-keeps log (add_prepared f stable votes (v, m) r acc) n (
              subst (λ (x : ℕ × ℕ). is_some (get (add_prepared f stable votes x r acc) n) ≡ true)
                (sym same) (add_prepared-adds view n r acc vote_set above k q))
        | inr z ↦
            prepared_from-is_some log (add_prepared f stable votes (v, m) r acc) view n p vote_set
              (rest z) above k q
      ]
    where
      rest : pair_beq nat_eq nat_eq (v, m) (view, n) ≡ false → get log (view, n) ≡ some p
      rest z = let h = g in unfold get in ground arith

-- In a well-formed state, each proposal that a replica reports is one that it prepared: above its
-- stable sequence number, under its own sequence number, and with the votes of a quorum for its
-- view, which are listed.
pub subsequent_prepares_sound :
    (e : Consensus) (n : ℕ) (p : PrePrepare) (listed : List Prepare)
    → WellFormed e.state
    → get (subsequent_prepares e) n ≡ some (p, listed)
    → PreparedAt e.config.num_faulty e.state.last_stable_seq_num e.state.prepare_votes n (p, listed)
unfolding subsequent_prepares
subsequent_prepares_sound e n p listed w h =
    get-Entries (PreparedAt e.config.num_faulty e.state.last_stable_seq_num e.state.prepare_votes)
      (subsequent_prepares e) n (p, listed)
      (prepared_from-Entries e.config.num_faulty e.state.last_stable_seq_num e.state.prepare_votes
        e.state.message_bank.accepted_pre_prepare_requests [] w.log tt)
      h

-- Nothing prepared is left out: where a proposal above the stable sequence number has a quorum of
-- prepares, the replica reports a proposal at its sequence number.
pub subsequent_prepares_complete :
    (e : Consensus) (view n : ℕ) (p : PrePrepare) (vote_set : HashMap ℕ Prepare)
    → get e.state.message_bank.accepted_pre_prepare_requests (view, n) ≡ some p
    → e.state.last_stable_seq_num < n
    → get e.state.prepare_votes (view, n) ≡ some vote_set
    → 2 * e.config.num_faulty < length vote_set
    → is_some (get (subsequent_prepares e) n) ≡ true
unfolding subsequent_prepares
subsequent_prepares_complete e view n p vote_set g above k q =
    prepared_from-is_some e.config.num_faulty e.state.last_stable_seq_num e.state.prepare_votes
      e.state.message_bank.accepted_pre_prepare_requests [] view n p vote_set g above k q
