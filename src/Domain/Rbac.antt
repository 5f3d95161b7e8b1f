-- ===== src/Domain/Rbac.antt =====
-- packages/domain/src/rbac.ts: what each role of an organization may do.
use atlas_rail.Common.{ℕ, zero, suc, ◌≡◌, refl, Bool, List, [], ◌∷◌, contains, Eq, eq_by_rank}

pub data UserRole : Type 0 where
  owner admin operator approver auditor developer : UserRole

pub data PermissionAction : Type 0 where
  organization_read organization_write treasury_read treasury_write : PermissionAction
  treasury_freeze recipient_read recipient_write recipient_verify : PermissionAction
  recipient_block policy_read policy_write policy_activate payout_read : PermissionAction
  payout_create payout_approve payout_reject payout_cancel payout_execute : PermissionAction
  ledger_read reconciliation_export apikey_manage webhook_manage mandate_read : PermissionAction
  mandate_create mandate_sign mandate_revoke approval_read approval_decide : PermissionAction
  agent_gate receipt_read receipt_anchor : PermissionAction

abbrev action_rank : PermissionAction → ℕ
action_rank organization_read = 0
action_rank organization_write = 1
action_rank treasury_read = 2
action_rank treasury_write = 3
action_rank treasury_freeze = 4
action_rank recipient_read = 5
action_rank recipient_write = 6
action_rank recipient_verify = 7
action_rank recipient_block = 8
action_rank policy_read = 9
action_rank policy_write = 10
action_rank policy_activate = 11
action_rank payout_read = 12
action_rank payout_create = 13
action_rank payout_approve = 14
action_rank payout_reject = 15
action_rank payout_cancel = 16
action_rank payout_execute = 17
action_rank ledger_read = 18
action_rank reconciliation_export = 19
action_rank apikey_manage = 20
action_rank webhook_manage = 21
action_rank mandate_read = 22
action_rank mandate_create = 23
action_rank mandate_sign = 24
action_rank mandate_revoke = 25
action_rank approval_read = 26
action_rank approval_decide = 27
action_rank agent_gate = 28
action_rank receipt_read = 29
action_rank receipt_anchor = 30

abbrev action_unrank : ℕ → PermissionAction
action_unrank zero = organization_read
action_unrank (suc zero) = organization_write
action_unrank (suc (suc zero)) = treasury_read
action_unrank (suc (suc (suc zero))) = treasury_write
action_unrank (suc (suc (suc (suc zero)))) = treasury_freeze
action_unrank (suc (suc (suc (suc (suc zero))))) = recipient_read
action_unrank (suc (suc (suc (suc (suc (suc zero)))))) = recipient_write
action_unrank (suc (suc (suc (suc (suc (suc (suc zero))))))) = recipient_verify
action_unrank (suc (suc (suc (suc (suc (suc (suc (suc zero)))))))) = recipient_block
action_unrank (suc (suc (suc (suc (suc (suc (suc (suc (suc zero))))))))) = policy_read
action_unrank (suc (suc (suc (suc (suc (suc (suc (suc (suc (suc zero)))))))))) = policy_write
action_unrank (suc (suc (suc (suc (suc (suc (suc (suc (suc (suc (suc zero))))))))))) =
    policy_activate
action_unrank (suc (suc (suc (suc (suc (suc (suc (suc (suc (suc (suc (suc zero)))))))))))) =
    payout_read
action_unrank (suc (suc (suc (suc (suc (suc (suc (suc (suc (suc (suc (suc (suc zero))))))))))))) =
    payout_create
action_unrank
      (suc (suc (suc (suc (suc (suc (suc (suc (suc (suc (suc (suc (suc (suc zero)))))))))))))) =
    payout_approve
action_unrank
      (suc
        (suc (suc (suc (suc (suc (suc (suc (suc (suc (suc (suc (suc (suc (suc zero))))))))))))))) =
    payout_reject
action_unrank
      (suc (
        suc (
          suc
            (suc (suc (suc (suc (suc (suc (suc (suc (suc (suc (suc (suc (suc zero)))))))))))))))) =
    payout_cancel
action_unrank
      (suc (
        suc (
          suc (
            suc (
              suc
                (suc (suc (suc (suc (suc (suc (suc (suc (suc (suc (suc (suc zero))))))))))))))))) =
    payout_execute
action_unrank
      (suc (
        suc (
          suc (
            suc (
              suc (
                suc (
                  suc
                    (suc (suc (suc (suc (suc (suc (suc (suc (suc (suc (suc zero)))))))))))))))))) =
    ledger_read
action_unrank
      (suc (
        suc (
          suc (
            suc (
              suc (
                suc (
                  suc (
                    suc (
                      suc
                        (suc (suc (suc (suc (suc (suc (suc (suc (suc (suc zero))))))))))))))))))) =
    reconciliation_export
action_unrank
      (suc (
        suc (
          suc (
            suc (
              suc (
                suc (
                  suc (
                    suc (
                      suc (
                        suc (
                          suc
                            (suc (suc (suc (suc (suc (suc (suc (suc (suc zero)))))))))))))))))))) =
    apikey_manage
action_unrank
      (suc (
        suc (
          suc (
            suc (
              suc (
                suc (
                  suc (
                    suc (
                      suc (
                        suc (
                          suc (
                            suc (
                              suc
                                (suc (suc (suc (suc (suc (suc (suc (suc zero))))))))))))))))))))) =
    webhook_manage
action_unrank
      (suc (
        suc (
          suc (
            suc (
              suc (
                suc (
                  suc (
                    suc (
                      suc (
                        suc (
                          suc (
                            suc (
                              suc (
                                suc (
                                  suc
                                    (suc (suc (suc (suc (suc (suc (suc zero)))))))))))))))))))))) =
    mandate_read
action_unrank
      (suc (
        suc (
          suc (
            suc (
              suc (
                suc (
                  suc (
                    suc (
                      suc (
                        suc (
                          suc (
                            suc (
                              suc (
                                suc (
                                  suc (
                                    suc (
                                      suc
                                        (suc (suc (suc (suc (suc (suc zero))))))))))))))))))))))) =
    mandate_create
action_unrank
      (suc (
        suc (
          suc (
            suc (
              suc (
                suc (
                  suc (
                    suc (
                      suc (
                        suc (
                          suc (
                            suc (
                              suc (
                                suc (
                                  suc (
                                    suc (
                                      suc (
                                        suc (
                                          suc
                                            (suc (suc (suc (suc (suc zero)))))))))))))))))))))))) =
    mandate_sign
action_unrank
      (suc (
        suc (
          suc (
            suc (
              suc (
                suc (
                  suc (
                    suc (
                      suc (
                        suc (
                          suc (
                            suc (
                              suc (
                                suc (
                                  suc (
                                    suc (
                                      suc (
                                        suc (
                                          suc (
                                            suc (
                                              suc
                                                (suc (suc (suc (suc zero))))))))))))))))))))))))) =
    mandate_revoke
action_unrank
      (suc (
        suc (
          suc (
            suc (
              suc (
                suc (
                  suc (
                    suc (
                      suc (
                        suc (
                          suc (
                            suc (
                              suc (
                                suc (
                                  suc (
                                    suc (
                                      suc (
                                        suc (
                                          suc (
                                            suc (
                                              suc (
                                                suc (
                                                  suc
                                                    (suc (suc (suc zero)))))))))))))))))))))))))) =
    approval_read
action_unrank
      (suc (
        suc (
          suc (
            suc (
              suc (
                suc (
                  suc (
                    suc (
                      suc (
                        suc (
                          suc (
                            suc (
                              suc (
                                suc (
                                  suc (
                                    suc (
                                      suc (
                                        suc (
                                          suc (
                                            suc (
                                              suc (
                                                suc (
                                                  suc (
                                                    suc (
                                                      suc
                                                        (suc (suc zero))))))))))))))))))))))))))) =
    approval_decide
action_unrank
      (suc (
        suc (
          suc (
            suc (
              suc (
                suc (
                  suc (
                    suc (
                      suc (
                        suc (
                          suc (
                            suc (
                              suc (
                                suc (
                                  suc (
                                    suc (
                                      suc (
                                        suc (
                                          suc (
                                            suc (
                                              suc (
                                                suc (
                                                  suc (
                                                    suc (
                                                      suc (
                                                        suc (
                                                          suc
                                                            (suc zero)))))))))))))))))))))))))))) =
    agent_gate
action_unrank
      (suc (
        suc (
          suc (
            suc (
              suc (
                suc (
                  suc (
                    suc (
                      suc (
                        suc (
                          suc (
                            suc (
                              suc (
                                suc (
                                  suc (
                                    suc (
                                      suc (
                                        suc (
                                          suc (
                                            suc (
                                              suc (
                                                suc (
                                                  suc (
                                                    suc (
                                                      suc (
                                                        suc (
                                                          suc (
                                                            suc
                                                            (suc zero))))))))))))))))))))))))))))) =
    receipt_read
action_unrank
      (suc (
        suc (
          suc (
            suc (
              suc (
                suc (
                  suc (
                    suc (
                      suc (
                        suc (
                          suc (
                            suc (
                              suc (
                                suc (
                                  suc (
                                    suc (
                                      suc (
                                        suc (
                                          suc (
                                            suc (
                                              suc (
                                                suc (
                                                  suc (
                                                    suc (
                                                      suc (
                                                        suc (
                                                          suc (
                                                            suc (
                                                            suc
                                                            (suc n)))))))))))))))))))))))))))))) =
    receipt_anchor

pub action_retract : (a : PermissionAction) → action_unrank (action_rank a) ≡ a
action_retract organization_read = refl
action_retract organization_write = refl
action_retract treasury_read = refl
action_retract treasury_write = refl
action_retract treasury_freeze = refl
action_retract recipient_read = refl
action_retract recipient_write = refl
action_retract recipient_verify = refl
action_retract recipient_block = refl
action_retract policy_read = refl
action_retract policy_write = refl
action_retract policy_activate = refl
action_retract payout_read = refl
action_retract payout_create = refl
action_retract payout_approve = refl
action_retract payout_reject = refl
action_retract payout_cancel = refl
action_retract payout_execute = refl
action_retract ledger_read = refl
action_retract reconciliation_export = refl
action_retract apikey_manage = refl
action_retract webhook_manage = refl
action_retract mandate_read = refl
action_retract mandate_create = refl
action_retract mandate_sign = refl
action_retract mandate_revoke = refl
action_retract approval_read = refl
action_retract approval_decide = refl
action_retract agent_gate = refl
action_retract receipt_read = refl
action_retract receipt_anchor = refl

instance abbrev pub action_eq : Eq PermissionAction
action_eq = eq_by_rank action_rank action_unrank action_retract

-- `ROLE_PERMISSIONS`
unfoldable pub role_permissions : UserRole → List PermissionAction
role_permissions owner =
    organization_read ∷ organization_write ∷ treasury_read ∷ treasury_write ∷ treasury_freeze
    ∷ recipient_read ∷ recipient_write ∷ recipient_verify ∷ recipient_block ∷ policy_read
    ∷ policy_write ∷ policy_activate ∷ payout_read ∷ payout_create ∷ payout_approve ∷ payout_reject
    ∷ payout_cancel ∷ payout_execute ∷ ledger_read ∷ reconciliation_export ∷ apikey_manage
    ∷ webhook_manage ∷ mandate_read ∷ mandate_create ∷ mandate_sign ∷ mandate_revoke ∷ approval_read
    ∷ approval_decide ∷ agent_gate ∷ receipt_read ∷ receipt_anchor ∷ []
role_permissions admin =
    organization_read ∷ treasury_read ∷ treasury_write ∷ treasury_freeze ∷ recipient_read
    ∷ recipient_write ∷ recipient_verify ∷ recipient_block ∷ policy_read ∷ policy_write
    ∷ policy_activate ∷ payout_read ∷ payout_create ∷ payout_approve ∷ payout_reject ∷ payout_cancel
    ∷ payout_execute ∷ ledger_read ∷ reconciliation_export ∷ apikey_manage ∷ webhook_manage
    ∷ mandate_read ∷ mandate_create ∷ mandate_sign ∷ mandate_revoke ∷ approval_read
    ∷ approval_decide ∷ agent_gate ∷ receipt_read ∷ receipt_anchor ∷ []
role_permissions operator =
    organization_read ∷ treasury_read ∷ recipient_read ∷ recipient_write ∷ policy_read ∷ payout_read
    ∷ payout_create ∷ payout_cancel ∷ ledger_read ∷ reconciliation_export ∷ mandate_read
    ∷ mandate_create ∷ approval_read ∷ receipt_read ∷ []
role_permissions approver =
    organization_read ∷ treasury_read ∷ recipient_read ∷ policy_read ∷ payout_read ∷ payout_approve
    ∷ payout_reject ∷ ledger_read ∷ mandate_read ∷ mandate_sign ∷ approval_read ∷ approval_decide
    ∷ receipt_read ∷ []
role_permissions auditor =
    organization_read ∷ treasury_read ∷ recipient_read ∷ policy_read ∷ payout_read ∷ ledger_read
    ∷ reconciliation_export ∷ mandate_read ∷ approval_read ∷ receipt_read ∷ []
role_permissions developer =
    organization_read ∷ treasury_read ∷ recipient_read ∷ policy_read ∷ payout_read ∷ apikey_manage
    ∷ webhook_manage ∷ mandate_read ∷ agent_gate ∷ receipt_read ∷ []

unfoldable pub has_permission : UserRole → PermissionAction → Bool
unfolding role_permissions contains
has_permission role action = contains action (role_permissions role)
