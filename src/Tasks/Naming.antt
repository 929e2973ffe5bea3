-- ===== src/Tasks/Naming.antt =====
-- The name and the payload of a task, app/tasks/dispatch.py: both are functions of the job and its
-- generation, so a repeated creation meets the task that exists.
use spacerocks_coa.Base.{
  ℕ, ◌/◌, ◌^◌, ◌≡◌, refl, ◌||◌, ltb, List, ◌++◌, map, if◌then◌else◌, length, codes, hex_digits,
  decimal, contains_text, lower_ascii, Result, ok, err, value_error,
}

-- str(job_id): the 32 hexadecimal digits in groups of 8, 4, 4, 4 and 12
unfoldable pub uuid_text : ℕ → List ℕ
uuid_text id =
    hex_digits 8 (id / 2 ^ 96)
    ++ (codes "-"
        ++ (hex_digits 4 (id / 2 ^ 80)
            ++ (codes "-"
                ++ (hex_digits 4 (id / 2 ^ 64)
                    ++ (codes "-"
                        ++ (hex_digits 4 (id / 2 ^ 48) ++ (codes "-" ++ hex_digits 12 id)))))))

-- The text matches _TASK_NAME exactly when the decimal part has at most nine digits: the rest of
-- the pattern holds by construction.
unfoldable pub deterministic_task_name : ℕ → ℕ → Result (List ℕ)
deterministic_task_name job_id generation =
    if ltb generation 1
    then err (value_error "task_generation_invalid")
    else if ltb 9 (length (decimal generation))
    then err (value_error "task_name_invalid")
    else ok (codes "timestamp-" ++ (hex_digits 32 job_id ++ (codes "-g" ++ decimal generation)))

unfoldable pub task_payload : ℕ → ℕ → Result (List ℕ)
task_payload job_id generation =
    let payload =
      codes "{\"generation\":"
      ++ (decimal generation ++ (codes ",\"job_id\":\"" ++ (uuid_text job_id ++ codes "\"}"))) in
    if ltb 128 (length payload)
      || (contains_text (codes "@") payload
          || contains_text (codes "token") (map lower_ascii payload))
    then err (value_error "task_payload_invalid")
    else ok payload

payload_17 :
    task_payload 17 3
    ≡ ok (codes "{\"generation\":3,\"job_id\":\"00000000-0000-0000-0000-000000000011\"}")
unfolding task_payload uuid_text hex_digits decimal contains_text
payload_17 = refl

task_name_17 :
    deterministic_task_name 0xabcdef 12
    ≡ ok (codes "timestamp-00000000000000000000000000abcdef-g12")
unfolding deterministic_task_name hex_digits decimal
task_name_17 = refl
