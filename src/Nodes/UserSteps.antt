-- ===== src/Nodes/UserSteps.antt =====
-- What the three calls that change users (internal/nodes/anyconnect.go) keep: a property of the tables
-- that their one write to the users keeps, and that a new secret does not touch.
use mathlib.Core.Path.{subst}
use snell_sh.Common.{◌≡◌, sym, ap, arith, true, false, not, [], Text, codes, text_eq}
use snell_sh.Common.Dict.{lookup}
use snell_sh.Database.{
  World, Action, Result, ok, no_rows, invalid, query, or_raise, exec_checked, ◌>>=◌,
}
use snell_sh.Database.Steps.{either}
use snell_sh.Database.Reads.{
  Reads, query-Reads, or_raise-Reads, raise_if-Reads, >>=-Reads, Reads-then, then-Reads,
  exec_checked_either,
}
use snell_sh.Nodes.Model.{Tables, plain}
use snell_sh.Nodes.Store.{Drawn, raise_some}
use snell_sh.Nodes.Users.{
  UserRequest, require_server, get_vpn_user, named_errors, with_message, insertion, user_row,
  create_vpn_user, user_change, changed_user, next_password, update_vpn_user, user_removal,
  delete_vpn_user, validate_user,
}
use snell_sh.Nodes.Rows.{put_secret}
use snell_sh.Nodes.Reading.{raise_some-Reads}
use snell_sh.Nodes.Updated.{
  SecretsOnly, KeepsRows, put_secret-KeepsRows, choice-KeepsRows, pure-KeepsRows, then-KeepsRows,
}
use snell_sh.Nodes.Validate.{is_anyconnect, text_or}

get_vpn_user-Reads : (node_id id : Text) → Reads (get_vpn_user node_id id)
unfolding get_vpn_user
get_vpn_user-Reads node_id id =
    >>=-Reads (query _) _ (query-Reads _) (λ o. or_raise-Reads Tables o _)

message_tables : {A : Type 0} (p : Result A × World Tables) → (with_message p).1 ≡ p.1
message_tables p = ground arith

pub require_server-Reads : (id : Text) → Reads (require_server id)
unfolding require_server
require_server-Reads id = >>=-Reads (query _) _ (query-Reads _) (λ row.
    >>=-Reads (or_raise row no_rows) _ (or_raise-Reads Tables row no_rows)
      (λ n. raise_if-Reads Tables (not (is_anyconnect n.kind)) (invalid (codes "NOT_SERVER"))))

next_password-KeepsRows :
    (r : UserRequest) (old_ref : Text) (d : Drawn) → KeepsRows (next_password r old_ref d)
unfolding next_password
next_password-KeepsRows r old_ref d =
    choice-KeepsRows (text_eq r.password []) _ _ (pure-KeepsRows old_ref) (
      then-KeepsRows (put_secret d.secret_id (plain r.password)) _
        (put_secret-KeepsRows d.secret_id (plain r.password)) (λ _. pure-KeepsRows d.secret_id))

-- A property of the tables that the secrets do not touch.
module _ {ℓ} (Q : Tables → Type ℓ) (hidden : (t t' : Tables) → SecretsOnly t t' → Q t → Q t') where
  -- A step that changes the secrets at most.
  after_secrets :
      {A B : Type 0} (m : Action Tables A) (f : A → Action Tables B) (w : World Tables)
      → KeepsRows m
      → Q w.tables
      → ((a : A) (v : World Tables) → Q v.tables → Q (f a v).1.tables)
      → Q ((m >>= f) w).1.tables
  after_secrets m f w keeps s k =
      let safe = hidden w.tables (m w).1.tables (keeps w) s in
      either Q m f w (λ e v h. subst Q (ap (λ p. p.1.tables) h) safe)
        (λ a v h. k a v (subst Q (ap (λ p. p.1.tables) h) safe))

  named_errors-Keeps :
      (g : Tables → Result Tables) (w : World Tables)
      → Q w.tables
      → ((t : Tables) → g w.tables ≡ ok t → Q t)
      → Q (named_errors (exec_checked g) w).1.tables
  named_errors-Keeps g w s k =
      subst (λ (v : World Tables). Q v.tables) (sym (message_tables (exec_checked g w)))
        (exec_checked_either Q g w s (λ v h. k v.tables h))

  pub create_vpn_user-Keeps :
      (node_id id : Text) (r : UserRequest) (d : Drawn) (w : World Tables)
      → ((t t' : Tables)
          → insertion id (user_row node_id r d.secret_id d.now) t ≡ ok t'
          → Q t
          → Q t')
      → Q w.tables
      → Q (create_vpn_user node_id id r d w).1.tables
  unfolding create_vpn_user
  create_vpn_user-Keeps node_id id r d w write_keeps s =
      Reads-then Q (require_server node_id) _ w (require_server-Reads node_id) s (λ _ w1 _ s1.
        let safe1 = subst Q (sym s1) s in
        Reads-then Q (raise_some (validate_user true r)) _ w1 (raise_some-Reads _) safe1
          (λ _ w2 _ s2.
            after_secrets (put_secret d.secret_id (plain r.password)) _ w2
              (put_secret-KeepsRows d.secret_id (plain r.password)) (subst Q (sym s2) safe1)
              (λ _ v safe.
                let write = insertion id (user_row node_id r d.secret_id d.now) in
                then-Reads Q (named_errors (exec_checked write)) (λ _. get_vpn_user node_id id) v
                  (λ _. get_vpn_user-Reads node_id id)
                  (named_errors-Keeps write v safe (λ t h. write_keeps v.tables t h safe)))))

  pub update_vpn_user-Keeps :
      (node_id id : Text) (r : UserRequest) (d : Drawn) (w : World Tables)
      → ((name ref : Text) (t t' : Tables)
          → user_change node_id id (changed_user (text_or r.username name) r ref d.now) t ≡ ok t'
          → Q t
          → Q t')
      → Q w.tables
      → Q (update_vpn_user node_id id r d w).1.tables
  unfolding update_vpn_user
  update_vpn_user-Keeps node_id id r d w write_keeps s =
      Reads-then Q (raise_some (validate_user false r)) _ w (raise_some-Reads _) s (λ _ w1 _ s1.
        let safe1 = subst Q (sym s1) s in
        Reads-then Q (get_vpn_user node_id id) _ w1 (get_vpn_user-Reads node_id id) safe1
          (λ old w2 _ s2.
            let safe2 = subst Q (sym s2) safe1 in
            Reads-then Q (query (λ t. lookup id t.users)) _ w2 (query-Reads _) safe2 (λ row w3 _ s3.
              let safe3 = subst Q (sym s3) safe2 in
              Reads-then Q (or_raise row no_rows) _ w3 (or_raise-Reads Tables row no_rows) safe3
                (λ u w4 _ s4.
                  after_secrets (next_password r u.password_ref d) _ w4
                    (next_password-KeepsRows r u.password_ref d) (subst Q (sym s4) safe3)
                    (λ ref v safe.
                      let write =
                        user_change node_id id
                          (changed_user (text_or r.username old.username) r ref d.now) in
                      then-Reads Q (named_errors (exec_checked write))
                        (λ _. get_vpn_user node_id id) v (λ _. get_vpn_user-Reads node_id id)
                        (named_errors-Keeps write v safe
                          (λ t h. write_keeps old.username ref v.tables t h safe)))))))

  pub delete_vpn_user-Keeps :
      (node_id id : Text) (w : World Tables)
      → ((t t' : Tables) → user_removal node_id id t ≡ ok t' → Q t → Q t')
      → Q w.tables
      → Q (delete_vpn_user node_id id w).1.tables
  unfolding delete_vpn_user
  delete_vpn_user-Keeps node_id id w write_keeps s =
      exec_checked_either Q (user_removal node_id id) w s (λ v h. write_keeps w.tables v.tables h s)
