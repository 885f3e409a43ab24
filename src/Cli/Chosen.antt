-- ===== src/Cli/Chosen.antt =====
-- Where the requests go after a model was named in the chat.
