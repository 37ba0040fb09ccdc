-- ===== src/Tests/Printed.antt =====
-- The run of four nodes goes on: all replicas apply the write, and a client reads their answers.
use mathlib.Core.Path.{subst}
use p_bft.Base.{
  ℕ, zero, suc, true, ◌≡◌, refl, sym, none, some, List, [], ◌∷◌, ◌++◌, All, arith, inl, inr,
}
use p_bft.Messages.ClientResponse
use p_bft.Messages.Message.{Message, client_response_message}
use p_bft.Client.Session.{Session, started, on_answers}
use p_bft.Network.Agreement.{NewViewFree}
use p_bft.Network.Changes.Defs.{LateSent}
use p_bft.Network.Changes.Quorum.{new_view-needs-quorum}
use p_bft.Network.Engines.{first_leader}
use p_bft.Network.Prints.{SentByNode, Answers, prints_follow_leader}
use p_bft.Tests.Schedule.{Run, run, NetworkReach-unused}
use p_bft.Tests.Cluster.{hears_all, pairs, finished}
use p_bft.Tests.Sessions.{printed_for}
use p_bft.Tests.World.{plain, cluster}

answered : Run plain cluster pairs
answered = run plain cluster pairs finished (hears_all 2 1 ++ hears_all 3 1)

abbrev answer_of : ℕ → Message
answer_of id =
    client_response_message
      (ClientResponse.new_with_signature plain (id ∷ []) id 7 (b'x' ∷ []) none true)

abbrev answers : List Message
answers = answer_of 3 ∷ answer_of 1 ∷ answer_of 3 ∷ answer_of 2 ∷ []

nobody_asked : (i : ℕ) → All (LateSent []) (answered.engines i).sent
unfolding answered finished run
nobody_asked zero = (tt, tt)
nobody_asked (suc zero) = (tt, (tt, (tt, tt)))
nobody_asked (suc (suc zero)) = (tt, (tt, (tt, tt)))
nobody_asked (suc (suc (suc zero))) = (tt, (tt, (tt, tt)))
nobody_asked (suc (suc (suc (suc i)))) =
    subst (λ g. All (LateSent []) g.sent)
      (sym (NetworkReach-unused answered.reach (suc (suc (suc (suc i)))) (omega arith))) tt

no_new_view : NewViewFree answered.engines
no_new_view = new_view-needs-quorum [] (omega arith) answered.reach nobody_asked

answers_sent : All (SentByNode answered.engines) answers
unfolding answered finished run
answers_sent = (
  (3, inr (inr (inl refl))),
  ((1, inr (inr (inl refl))), ((3, inr (inr (inl refl))), ((2, inr (inr (inl refl))), tt))),
)

-- One line is printed: the time stamp of the write, with no value.
prints_write : printed_for 4 answers ≡ (7, none) ∷ []
unfolding printed_for
prints_write = refl

prints_follow_leader_example :
    (s : Session) × (on_answers (started 4) answers ≡ some s)
    × All (λ line. Answers (answered.engines (first_leader cluster)) line.0 line.1) s.printed
prints_follow_leader_example =
    prints_follow_leader refl answered.reach no_new_view answers answers_sent
