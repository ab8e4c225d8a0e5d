-- ===== src/Messaging/Grants/Tests.antt =====
-- core/messaging/src/grants.rs: runs of consent that is given and withdrawn.
use lowband.Prelude.{◌≢◌, arith, true, false, some, [], ◌∷◌}
use lowband.Messaging.Grants.{
  Store, new_handle, withdraw, consent_withdrawn, ConsentGrant, Issued, issue_all,
}
use lowband.Messaging.Grants.Withdrawal.{now_already, withdrew, AllReject, issue_all-withdraw}

-- Two consents were given before.
abbrev earlier : Store
earlier = true ∷ false ∷ []

abbrev five_minutes : ConsentGrant
five_minutes = record { duration = some 300 }

abbrev issued : Issued
issued = issue_all earlier 1_000 five_minutes

issue_all-withdraw_example :
    AllReject (withdraw (withdraw issued.store issued.handle) 1) issued consent_withdrawn
issue_all-withdraw_example =
    issue_all-withdraw five_minutes earlier issued.store
      (withdraw (withdraw issued.store issued.handle) 1) 1_000 now_already (withdrew 1 now_already)

handle_other : issued.handle ≢ 1
unfolding issue_all new_handle
handle_other = λ e. omega (arith, e)
