-- ===== src/Hub/Subscribers/Filter.antt =====
-- What a guest's page can see.
