-- ===== src/Jobs/Backoff.antt =====
-- About the delay between the attempts of a job.
